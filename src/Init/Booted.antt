-- ===== src/Init/Booted.antt =====
-- The state after the boot: the first two processes, the free entries, and the tables of files.
use tinyos.Base.{
  ℕ, ◌≤◌, ◌<◌, ◌≡◌, ◌⊎◌, List, [], ◌∷◌, true, Option, none, some, if◌then◌else◌, count, arith, ◌==◌,
  refl, subst, sym, ◌∙◌, ap,
}
use tinyos.Streams.{initialize_files}
use tinyos.Streams.Calls.{IsSound}
use tinyos.Streams.Reserve.{initialize_files-IsSound}
use tinyos.Kernel.{Kernel, is_free, alive, max_proc, is_child}
use tinyos.Kernel.Family.{IsFamily}
use tinyos.Proc.{blank_table, initialize_processes, sys_exec}
use tinyos.Proc.Table.{IsTable}
use tinyos.Proc.Boot.{below-two, blank_table-IsTable}
use tinyos.Proc.Blank.{IsUnused, blank_table-IsUnused, blank_table-fidt}
use tinyos.Dev.{Devices, initialize_devices}
use tinyos.Init.{Machine, initialize_rest, boot_tinyos_kernel}
use tinyos.Init.Exec.{Started, sys_exec-Started}

module _ {Ops World : Type 0} where
  -- The kernel behind the boot: the processes 0 and 1 are alive and have no parent, the others are
  -- free, and the process tree, the free list, the process count and the tables of files are sound.
  pub record IsBooted (k : Kernel Ops World) : Type 0 where
    pub idle : ((k.pt 0).pstate ≡ alive) × ((k.pt 0).parent ≡ none)
    pub root : ((k.pt 1).pstate ≡ alive) × ((k.pt 1).parent ≡ none)
    pub others : (x : ℕ) → 2 ≤ x → is_free (k.pt x).pstate ≡ true
    pub frees : List ℕ
    pub table : IsTable frees k
    pub family : IsFamily k.pt
    pub files : (n : ℕ) → n ≤ max_proc → IsSound n (λ f. 0) k.files

  -- The two processes, one after the other, in a table without processes.
  Started-IsBooted :
      (b k k' r : Kernel Ops World) (frees : List ℕ)
      → ((x : ℕ) → IsUnused (b.pt x))
      → ((x i : ℕ) → x < max_proc → b.files.fidt x i ≡ none)
      → Started 0 b k
      → k'.pt ≡ k.pt
      → k'.files ≡ initialize_files k.files
      → Started 1 k' r
      → IsTable frees r
      → IsBooted r
  unfolding is_child
  Started-IsBooted b k k' r frees u e s same files t table =
      let pt : (x : ℕ) → k'.pt x ≡ k.pt x = λ x. ap (λ f. f x) same in
      let state : (x : ℕ)
          → (is_free (r.pt x).pstate ≡ true)
            ⊎ ((r.pt x).pstate ≡ alive) × ((r.pt x).parent ≡ none) =
        λ x. ground (arith, t.pstate x, t.parent x, pt x, s.pstate x, s.parent x, (u x).pstate) in
      let children : (x : ℕ) → (r.pt x).children_list ≡ [] =
        λ x. t.children x ∙ ap (λ c. c.children_list) (pt x) ∙ s.children x ∙ (u x).children in
      let exited : (x : ℕ) → (r.pt x).exited_list ≡ [] =
        λ x. t.exited x ∙ ap (λ c. c.exited_list) (pt x) ∙ s.exited x ∙ (u x).exited in
      record {
        idle = (
          ground (arith, t.pstate 0, pt 0, s.pstate 0),
          ground (arith, t.parent 0, pt 0, s.parent 0),
        );
        root = (ground (arith, t.pstate 1), ground (arith, t.parent 1));
        others = λ x h. ground (arith, h, t.pstate x, pt x, s.pstate x, (u x).pstate);
        frees = frees;
        table = table;
        family = record {
          children = λ p c. ground (arith, ap (count c) (children p), state c);
          exited = λ p c. ground (arith, ap (count c) (exited p), state c);
          strict = λ p h. ground (arith, h, state p);
          root = λ h. ground (arith, h, t.parent 1);
        };
        files = λ n h. subst (IsSound n (λ f. 0)) (sym (t.files ∙ files)) (
            initialize_files-IsSound n k.files
              (λ p i c. ap (λ f. f.fidt p i) s.files ∙ e p i (omega (arith, c, h))));
      }

  initialize_processes-some :
      (k k1 : Kernel Ops World)
      → sys_exec 0 0 0 none 0 none (blank_table k) ≡ (some 0, k1)
      → initialize_processes k ≡ some k1
  unfolding initialize_processes
  initialize_processes-some k k1 e =
      ap
        (λ (x : Option ℕ × Kernel Ops World). elim x.0 [
          | none ↦ none
          | some p ↦ if p == 0 then some x.1 else none
        ])
        e

  -- The initialisers behind `initialize_processes` leave the process table as it is.
  initialize_rest-IsTable :
      (serial_ports : ℕ) (frees : List ℕ) (d : Devices) (k : Kernel Ops World)
      → IsTable frees k
      → IsTable frees (initialize_rest serial_ports d k).kernel
  unfolding initialize_rest
  initialize_rest-IsTable serial_ports frees d k t = record {
    chain = t.chain;
    members = t.members;
    counted = t.counted;
  }

  initialize_rest_lem :
      (serial_ports : ℕ) (d : Devices) (k : Kernel Ops World)
      → let g = initialize_rest serial_ports d k in
        (g.kernel.pt ≡ k.pt)
        × (g.kernel.files ≡ initialize_files k.files)
        × (g.devices ≡ initialize_devices serial_ports d)
  unfolding initialize_rest
  initialize_rest_lem serial_ports d k = (refl, refl, refl)

  boot-some :
      (serial_ports a t init_task argl : ℕ) (args : Option (List ℕ)) (m : Machine Ops World)
      (k r : Kernel Ops World)
      → initialize_processes m.kernel ≡ some k
      → sys_exec 0 a t (some init_task) argl args (initialize_rest serial_ports m.devices k).kernel
        ≡ (some 1, r)
      → boot_tinyos_kernel serial_ports a t init_task argl args m
        ≡ some (record (initialize_rest serial_ports m.devices k) { kernel = r })
  unfolding boot_tinyos_kernel
  boot-some serial_ports a t init_task argl args m k r e e' =
      ap
        (λ (o : Option (Kernel Ops World)). elim o [
          | none ↦ none
          | some k ↦
              let ready = initialize_rest serial_ports m.devices k in
              checked ready (sys_exec 0 a t (some init_task) argl args ready.kernel)
        ])
        e
      ∙ ap (checked (initialize_rest serial_ports m.devices k)) e'
    where
      checked : Machine Ops World → Option ℕ × Kernel Ops World → Option (Machine Ops World)
      checked ready (o, r) = elim o [
        | none ↦ none
        | some p ↦ if p == 1 then some (record ready { kernel = r }) else none
      ]

  -- The boot ends without a fatal error, from any state of the kernel in which what lies behind the
  -- process table is unused: the processes 0 and 1 are then alive and have no parent, the other
  -- entries are free, and the process tree, the free list, the process count and the tables of files
  -- are sound.
  pub boot_tinyos_kernel-IsBooted :
      (serial_ports a t init_task argl : ℕ) (args : Option (List ℕ)) (m : Machine Ops World)
      → ((x : ℕ) → max_proc ≤ x → IsUnused (m.kernel.pt x))
      → (g : Machine Ops World) × (boot_tinyos_kernel serial_ports a t init_task argl args m
          ≡ some g)
        × IsBooted g.kernel
        × (g.devices ≡ initialize_devices serial_ports m.devices)
  boot_tinyos_kernel-IsBooted serial_ports a t init_task argl args m h =
      let b = blank_table m.kernel in
      let (qs, two) = below-two 65534 [] in
      let (k, e, table, s) =
        sys_exec-Started 0 0 0 0 none 0 none (1 ∷ qs) b
          (subst (λ l. IsTable l b) two (blank_table-IsTable m.kernel)) (omega arith) in
      let ready = initialize_rest serial_ports m.devices k in
      let (same, files, devices) = initialize_rest_lem serial_ports m.devices k in
      let (r, e', table', s') =
        sys_exec-Started 0 1 a t (some init_task) argl args qs ready.kernel
          (initialize_rest-IsTable serial_ports (1 ∷ qs) m.devices k table) (omega arith) in
      (
        record ready { kernel = r },
        boot-some serial_ports a t init_task argl args m k r
            (initialize_processes-some m.kernel k e) e',
        Started-IsBooted b k ready.kernel r qs (λ x. blank_table-IsUnused m.kernel x (h x))
            (blank_table-fidt m.kernel) s same files s' table',
        devices,
      )

-- ===== src/Bios/Reached.antt =====
-- Every step of the machine of bios.c keeps its list of halted cores right.
use tinyos.Base.{
  ℕ, zero, suc, ◌+◌, ◌≡◌, inl, inr, false, ◌&&◌, Option, none, some, if◌then◌else◌, ◌==◌, ltb, leb,
  update, arith, ap, sym, subst, Bool-cases, ==_iff,
}
use tinyos.Bios.{
  Vm, Core, Signals, cpu_core_restart_all, cpu_core_restart, vm_boot, boot_cores, booted_core,
  max_cores, max_terminals, cpu_ici, take_signal, cpu_interrupt_handler, set_core, interrupt_clear,
  dispatch_irq, ici, sigusr1_handler, dispatch_interrupts, try_dispatch,
}
use tinyos.Bios.Halt.{
  IsHalted, cpu_core_restart_one-RestartsOne, cpu_core_halt-IsHalted, core_restart-IsHalted,
  restart_from-IsHalted, raise_interrupt-IsHalted,
}
use tinyos.Bios.Machine.{
  Step, Reachable, halts, restarts, restarts_one, restarts_all, interrupts, takes, handles,
  sets_timer, reads, writes, rounds, here, there,
}
use tinyos.Bios.Taken.{sigusr1_handler-first, interrupt_clear-IsHalted, dispatch_irq-cases}
use tinyos.Bios.Devices.{Fifos, bios_read_serial, bios_write_serial}
use tinyos.Bios.Rounds.{
  OnSome, OnSome-some, pic_round-IsHalted, bios_set_timer-IsHalted, bios_read_serial-IsHalted,
  bios_write_serial-IsHalted,
}
use tinyos.Bios.Timer.{Timers}

-- The table of cores before the first boot: none is halted.
pub record IsBlank {Handler World : Type 0} (v : Vm Handler World) : Type 0 where
  pub halted : (c : ℕ) → (v.core c).halted ≡ false

module _ {Handler World : Type 0} (os : Signals World) where
  boot_cores-blank :
      (n i : ℕ) (f : ℕ → Core Handler)
      → ((c : ℕ) → (f c).halted ≡ false)
      → (c : ℕ) → (boot_cores n i f c).halted ≡ false
  unfolding boot_cores
  boot_cores-blank zero i f h c = h c
  boot_cores-blank (suc n) i f h c =
      boot_cores-blank n (i + 1) (update f i booted_core) (λ x. ground (arith, h x)) c

  vm_boot-IsHalted :
      (cores serialno now : ℕ) (v : Vm Handler World)
      → IsBlank v
      → OnSome IsHalted (vm_boot cores serialno now v)
  unfolding vm_boot
  vm_boot-IsHalted cores serialno now v blank =
      elim (Bool-cases
        ((ltb 0 cores && leb cores max_cores) && ((v.ncores == 0) && leb serialno max_terminals))) [
          | inl e ↦
              rw (e, vm_boot)
                (let b = boot_cores-blank cores 0 v.core blank.halted in
                  record { listed = λ c. ground (arith, b c); cores = λ c. ground (arith, b c) })
          | inr e ↦ rw (e, vm_boot) tt
        ]

  cpu_ici-IsHalted : (c : ℕ) (v : Vm Handler World) → IsHalted v → OnSome IsHalted (cpu_ici os c v)
  unfolding cpu_ici
  cpu_ici-IsHalted c v s = elim (Bool-cases (ltb c v.ncores)) [
    | inl e ↦ rw (e, cpu_ici) (raise_interrupt-IsHalted os c ici v s)
    | inr e ↦ rw (e, cpu_ici) tt
  ]

  cpu_interrupt_handler-IsHalted :
      (c i : ℕ) (h : Option Handler) (v : Vm Handler World)
      → IsHalted v
      → IsHalted (cpu_interrupt_handler c i h v)
  unfolding cpu_interrupt_handler set_core
  cpu_interrupt_handler-IsHalted c i h v s = record {
    listed = λ x. ground (arith, s.listed x);
    cores = λ x. ground (arith, s.cores x);
  }

  module _ (call : Handler → Vm Handler World → Vm Handler World)
      (handlers : (h : Handler) (v : Vm Handler World) → IsHalted v → IsHalted (call h v)) where
    dispatch_irq-IsHalted :
        (c j : ℕ) (v : Vm Handler World) → IsHalted v → IsHalted (dispatch_irq call c j v)
    dispatch_irq-IsHalted c j v s = elim (dispatch_irq-cases os call c j v) [
      | inl e ↦ subst IsHalted (sym e) s
      | inr (h, e) ↦ subst IsHalted (sym e) (handlers h v s)
    ]

    sigusr1_handler-other :
        (c n : ℕ) (v : Vm Handler World) → (c == n) ≡ false → sigusr1_handler call c n v ≡ none
    unfolding sigusr1_handler dispatch_interrupts
    sigusr1_handler-other c n v e = ap (λ b. if b then some (try_dispatch call n v).1 else none) e

    sigusr1_handler-IsHalted :
        (c n : ℕ) (v : Vm Handler World) → IsHalted v → OnSome IsHalted (sigusr1_handler call c n v)
    sigusr1_handler-IsHalted c n v s = elim (Bool-cases (c == n)) [
      | inr e ↦ subst (OnSome IsHalted) (sym (sigusr1_handler-other c n v e)) tt
      | inl e ↦
          subst (λ k. OnSome IsHalted (sigusr1_handler call c k v)) ((==_iff c n).0 e)
            (elim (sigusr1_handler-first os call c v) [
              | inl (absent, same) ↦ subst (OnSome IsHalted) (sym same) s
              | inr (j, below, set, same) ↦ subst (OnSome IsHalted) (sym same) (
                  dispatch_irq-IsHalted c j (interrupt_clear c j v).1
                    (interrupt_clear-IsHalted os call c j v s))
            ])
    ]

    take_signal-IsHalted :
        (c : ℕ) (v : Vm Handler World) → IsHalted v → OnSome IsHalted (take_signal call os c v)
    unfolding take_signal
    take_signal-IsHalted c v s = go (os.deliver c v.world)
      where
        after : Option (ℕ × World) → Option (Vm Handler World)
        after none = some v
        after (some (n, w)) = sigusr1_handler call c n (record v { world = w })

        go : (o : Option (ℕ × World)) → OnSome IsHalted (after o)
        go none = s
        go (some (n, w)) =
            sigusr1_handler-IsHalted c n (record v { world = w })
              (record { listed = s.listed; cores = s.cores })

    module _ (io : Fifos World) (tm : Timers World) where
      Step-IsHalted : {v w : Vm Handler World} → Step os io tm call v w → IsHalted v → IsHalted w
      unfolding cpu_core_restart cpu_core_restart_all
      Step-IsHalted (halts c {v} known up) s = cpu_core_halt-IsHalted c v known up s
      Step-IsHalted (restarts c {v}) s = core_restart-IsHalted c v s
      Step-IsHalted (restarts_one {v}) s = (cpu_core_restart_one-RestartsOne v s).0
      Step-IsHalted (restarts_all {v}) s = restart_from-IsHalted v.ncores 0 v s
      Step-IsHalted (interrupts c {v} {w} e) s =
          OnSome-some IsHalted (cpu_ici os c v) w e (cpu_ici-IsHalted c v s)
      Step-IsHalted (takes c {v} {w} e) s =
          OnSome-some IsHalted (take_signal call os c v) w e (take_signal-IsHalted c v s)
      Step-IsHalted (handles c interrupt h {v}) s = cpu_interrupt_handler-IsHalted c interrupt h v s
      Step-IsHalted (sets_timer c usec {v}) s = bios_set_timer-IsHalted os io tm c usec v s
      Step-IsHalted (reads fuel serial o {v} {w} e) s =
          OnSome-some (λ r. IsHalted r.1) (bios_read_serial os io fuel serial v) (o, w) e
            (bios_read_serial-IsHalted os io tm fuel serial v s)
      Step-IsHalted (writes fuel serial byte done {v} {w} e) s =
          OnSome-some (λ r. IsHalted r.1) (bios_write_serial os io fuel serial byte v) (done, w) e
            (bios_write_serial-IsHalted os io tm fuel serial byte v s)
      Step-IsHalted (rounds now sel {v}) s = pic_round-IsHalted os now sel v s

      Reachable-IsHalted :
          {v w : Vm Handler World} → IsHalted v → Reachable os io tm call v w → IsHalted w
      Reachable-IsHalted s here = s
      Reachable-IsHalted s (there r step) = Step-IsHalted step (Reachable-IsHalted s r)

      -- With handlers that keep the list of halted cores right: whatever the cores, the timers, the ports and the
      -- daemon do after the boot of the machine, from cores that are not halted, and whatever its host gives them, the
      -- halted cores, and no others, are on the list of halted cores, each once, and belong to the machine.
      pub vm_boot-Reachable :
          (cores serialno now : ℕ) (start v w : Vm Handler World)
          → IsBlank start
          → vm_boot cores serialno now start ≡ some v
          → Reachable os io tm call v w
          → IsHalted w
      vm_boot-Reachable cores serialno now start v w blank e r =
          Reachable-IsHalted
            (OnSome-some IsHalted (vm_boot cores serialno now start) v e
              (vm_boot-IsHalted cores serialno now start blank))
            r

-- ===== src/Proc/Info.antt =====
-- The information streams of kernel_proc.c.
use tinyos.Base.{
  ℕ, zero, suc, ◌+◌, ◌-◌, ◌≤◌, ◌<◌, ◌≡◌, List, ◌∷◌, Bool, true, false, Option, none, some, ltb,
  if◌then◌else◌, update, take, drop, ◌++◌, ◌≢◌, not,
}
use tinyos.Base.Int.{ℤ, pos, minus_one}
use tinyos.Userlib.{procinfo_max_args_size}
use tinyos.Streams.{Files, fcb_reserve}
use tinyos.Kernel.{Pcb, is_free, is_zombie, max_proc, get_pid}

-- `procinfo`. Its field for the arguments has `procinfo_max_args_size` bytes.
pub record Procinfo : Type 0 where
  pub pid : ℤ
  pub ppid : ℤ
  pub alive : Bool
  pub thread_count : ℕ
  pub main_task : Option ℕ
  pub argl : ℕ
  pub args : List ℕ

-- `procinfo_CB`
pub record ProcinfoCb : Type 0 where
  pub process_info : Procinfo
  pub pt_cursor : ℕ

-- `init_procinfo_cb`: the fields that it does not set keep what the block held.
unfoldable pub init_procinfo_cb : ProcinfoCb → ProcinfoCb
init_procinfo_cb memory =
    let i = memory.process_info in
    record {
      pt_cursor = 0;
      process_info = record i {
        pid = pos 0;
        ppid = pos 0;
        alive = false;
        thread_count = 0;
        argl = 0;
      };
    }

-- The loop that passes by the free entries of the table; `none` is its return of -1.
unfoldable pub next_used : (rounds cursor : ℕ) → (ℕ → Pcb) → Option ℕ
next_used zero cursor pt = none
next_used (suc n) cursor pt =
    let more = next_used n (cursor + 1) pt in
    if is_free (pt cursor).pstate then more else some cursor

-- The `procinfo` of one process; what the arguments do not fill of their field keeps what it held. `none` is a
-- copy that does not fit into the field.
unfoldable pub describe : (pid : ℕ) → Pcb → Procinfo → Option Procinfo
unfolding get_pid
describe pid c old =
    let info : Procinfo = record {
      pid = get_pid (some pid);
      ppid = get_pid c.parent;
      alive = if is_zombie c.pstate then false else true;
      thread_count = c.thread_count;
      main_task = c.main_task;
      argl = c.argl;
      args = old.args;
    } in
    elim c.args [
      | none ↦ some info
      | some bytes ↦
          if ltb procinfo_max_args_size c.argl
          then none
          else some (record info { args = take c.argl bytes ++ drop c.argl old.args })
    ]

-- `procinfo_read` behind the loop that finds the entry.
unfoldable pub read_entry :
    (size_of : ℕ) → (ℕ → Pcb) → ProcinfoCb → Option ℕ → Option (ℤ × Option Procinfo × ProcinfoCb)
unfolding describe
read_entry size_of pt cb none = some (minus_one, none, record cb { pt_cursor = max_proc })
read_entry size_of pt cb (some p) = elim (describe p (pt p) cb.process_info) [
  | none ↦ none
  | some info ↦ some (pos size_of, some info, record { process_info = info; pt_cursor = p + 1 })
]

-- `procinfo_read`: the value, what is stored in the buffer, and the stream object; `none` when the arguments run
-- over their field. `size_of` is the size of a `procinfo`; `has_buf` tells a buffer from NULL.
unfoldable pub procinfo_read :
    (size_of : ℕ)
    → (has_buf : Bool) → (ℕ → Pcb)
    → ProcinfoCb
    → Option (ℤ × Option Procinfo × ProcinfoCb)
unfolding next_used read_entry
procinfo_read size_of has_buf pt cb =
    let cursor = cb.pt_cursor in
    let found = read_entry size_of pt cb (next_used (max_proc - cursor) cursor pt) in
    if has_buf
    then (if ltb (max_proc - 1) cursor then some (minus_one, none, cb) else found)
    else some (minus_one, none, cb)

-- `procinfo_write`
unfoldable pub procinfo_write : List ℕ → ProcinfoCb → ℤ × ProcinfoCb
procinfo_write buf cb = (minus_one, cb)

-- `procinfo_close`; what is left is the block, `none` once it is freed.
unfoldable pub procinfo_close : Option ProcinfoCb → ℤ × Option ProcinfoCb
procinfo_close none = (minus_one, none)
procinfo_close (some cb) = (pos 0, none)

-- `sys_OpenInfo` for process `p`; `obj` is the new block and `ops` stands for `procinfo_ops`.
unfoldable pub sys_open_info :
    {Ops World : Type 0} → (p obj : ℕ) → Ops → Files Ops World → ℤ × Files Ops World
unfolding fcb_reserve
sys_open_info p obj ops s =
    let (o, r) = fcb_reserve p 1 s in
    elim o [
      | some (i ∷ is, f ∷ fs) ↦
          let c = r.fcb f in
          (
            pos i,
            record r { fcb = update r.fcb f (record c { streamobj = some obj; streamfunc = ops }) },
          )
      | _ ↦ (minus_one, r)
    ]

-- What the walk over the table gives: the first entry in use.
abbrev pub NextUsed : (cursor limit : ℕ) → (ℕ → Pcb) → Option ℕ → Type 0
NextUsed cursor limit pt none = (q : ℕ) → cursor ≤ q → q < limit → is_free (pt q).pstate ≡ true
NextUsed cursor limit pt (some p) =
    (cursor ≤ p)
    × (p < limit)
    × (is_free (pt p).pstate ≡ false)
    × ((q : ℕ) → cursor ≤ q → q < p → is_free (pt q).pstate ≡ true)

-- The description of process `p`, with the entry `c`, in a block that held `old`.
pub record Describes (p : ℕ) (c : Pcb) (old info : Procinfo) : Type 0 where
  pub pid : info.pid ≡ pos p
  pub ppid : info.ppid ≡ get_pid c.parent
  pub alive : info.alive ≡ not (is_zombie c.pstate)
  pub thread_count : info.thread_count ≡ c.thread_count
  pub main_task : info.main_task ≡ c.main_task
  pub argl : info.argl ≡ c.argl
  pub no_args : c.args ≡ none → info.args ≡ old.args
  pub args :
      (bytes : List ℕ)
      → c.args ≡ some bytes
      → (c.argl ≤ procinfo_max_args_size) × (info.args ≡ take c.argl bytes ++ drop c.argl old.args)

-- What a read of an information stream comes to, by the first process in use from the cursor on.
abbrev pub Described :
    (size_of : ℕ) → (ℕ → Pcb) → ProcinfoCb → Option (ℤ × Option Procinfo × ProcinfoCb) → Type 0
Described size_of pt cb none =
    (p : ℕ) × NextUsed cb.pt_cursor max_proc pt (some p)
    × ((pt p).args ≢ none)
    × (procinfo_max_args_size < (pt p).argl)
Described size_of pt cb (some (r, none, cb')) =
    (r ≡ minus_one)
    × ((q : ℕ) → cb.pt_cursor ≤ q → q < max_proc → is_free (pt q).pstate ≡ true)
    × (max_proc ≤ cb'.pt_cursor)
Described size_of pt cb (some (r, some info, cb')) =
    (p : ℕ) × (r ≡ pos size_of)
    × NextUsed cb.pt_cursor max_proc pt (some p)
    × Describes p (pt p) cb.process_info info
    × (cb'.process_info ≡ info)
    × (cb'.pt_cursor ≡ p + 1)

-- The description fits, or the arguments do not.
abbrev Fits : (p : ℕ) → Pcb → Procinfo → Option Procinfo → Type 0
Fits p c old none = (c.args ≢ none) × (procinfo_max_args_size < c.argl)
Fits p c old (some info) = Describes p c old info

-- ===== src/Pipe/Open.antt =====
-- `sys_Pipe` of kernel_pipe.c, over the file ids of kernel_streams.c.
use tinyos.Base.{ℕ, List, ◌∷◌, Option, none, some, update}
use tinyos.Pipe.{Pipe, pipe_init}
use tinyos.Streams.{Files, fcb_reserve}

-- The blocks that `sys_Pipe` changes.
pub record Pipes (Ops World : Type 0) : Type 0 where
  pub pipe : ℕ → Pipe
  pub files : Files Ops World

module _ {Ops World : Type 0} where
  -- The assignments of `sys_Pipe` behind its reservation: `q` is the new block, with `memory` in its
  -- buffer, and the operations stand for `readOperations` and `writeOperations`.
  unfoldable pub connect_pipe :
      (reads writes : Ops)
      → (q : ℕ) → (memory : ℕ → ℕ) → (f0 f1 : ℕ) → Pipes Ops World
      → Pipes Ops World
  unfolding pipe_init
  connect_pipe reads writes q memory f0 f1 s =
      let t = s.files in
      let new = pipe_init memory in
      let b0 = t.fcb f0 in
      let fcb0 = update t.fcb f0 (record b0 { streamobj = some q; streamfunc = reads }) in
      let b1 = fcb0 f1 in
      record {
        pipe = update s.pipe q (record new { reader = some f0; writer = some f1 });
        files = record t {
          fcb = update fcb0 f1 (record b1 { streamobj = some q; streamfunc = writes });
        };
      }

  -- `sys_Pipe` with the result of its reservation.
  unfoldable pub pipe_reserved :
      (reads writes : Ops)
      → (q : ℕ) → (memory : ℕ → ℕ) → (ℕ → Pipe)
      → Option (List ℕ × List ℕ) × Files Ops World
      → Option (ℕ × ℕ) × Pipes Ops World
  unfolding connect_pipe
  pipe_reserved reads writes q memory pipe (some (i0 ∷ i1 ∷ is, f0 ∷ f1 ∷ fs), t) =
      (some (i0, i1), connect_pipe reads writes q memory f0 f1 (record { pipe = pipe; files = t }))
  pipe_reserved reads writes q memory pipe (_, t) = (none, record { pipe = pipe; files = t })

  -- `sys_Pipe` for the process `p`: the file ids to read and to write, or `none` where it returns -1.
  unfoldable pub sys_pipe :
      (reads writes : Ops)
      → (p q : ℕ) → (memory : ℕ → ℕ) → Pipes Ops World
      → Option (ℕ × ℕ) × Pipes Ops World
  unfolding pipe_reserved
  sys_pipe reads writes p q memory s =
      pipe_reserved reads writes q memory s.pipe (fcb_reserve p 2 s.files)

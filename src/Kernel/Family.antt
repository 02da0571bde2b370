-- ===== src/Kernel/Family.antt =====
-- The tree of processes: the lists of children and of exited children agree with the parents.
use tinyos.Base.{ℕ, ◌≡◌, false, not, ◌&&◌, if◌then◌else◌, count, none, arith}
use tinyos.Kernel.{Kernel, Pcb, is_free, is_zombie, is_child, broadcast_child_exit}

-- A process in use is among the children of its parent, once, and nowhere else; a zombie is also among the
-- exited children of its parent, once, and nothing else is. No process is its own parent, and
-- process 1 has none.
pub record IsFamily (pt : ℕ → Pcb) : Type 0 where
  pub children :
      (p c : ℕ)
      → count c (pt p).children_list
        ≡ (if not (is_free (pt c).pstate) && is_child p (pt c).parent then 1 else 0)
  pub exited :
      (p c : ℕ)
      → count c (pt p).exited_list
        ≡ (if is_zombie (pt c).pstate && is_child p (pt c).parent then 1 else 0)
  pub strict : (p : ℕ) → is_free (pt p).pstate ≡ false → is_child p (pt p).parent ≡ false
  pub root : is_free (pt 1).pstate ≡ false → (pt 1).parent ≡ none

-- What the family of a process is read from.
pub record SameFamily (c d : Pcb) : Type 0 where
  pub pstate : d.pstate ≡ c.pstate
  pub parent : d.parent ≡ c.parent
  pub children : d.children_list ≡ c.children_list
  pub exited : d.exited_list ≡ c.exited_list

pub IsFamily-same :
    (pt pt' : ℕ → Pcb) → ((p : ℕ) → SameFamily (pt p) (pt' p)) → IsFamily pt → IsFamily pt'
IsFamily-same pt pt' e f = record {
  children = λ p c. rw ((e p).children, (e c).pstate, (e c).parent) (f.children p c);
  exited = λ p c. rw ((e p).exited, (e c).pstate, (e c).parent) (f.exited p c);
  strict = λ p. rw ((e p).pstate, (e p).parent) (f.strict p);
  root = rw ((e 1).pstate, (e 1).parent) f.root;
}

pub broadcast_child_exit-SameFamily :
    {Ops World : Type 0} (q : ℕ) (k : Kernel Ops World) (p : ℕ)
    → SameFamily (k.pt p) ((broadcast_child_exit q k).pt p)
unfolding broadcast_child_exit
broadcast_child_exit-SameFamily q k p = ground arith

-- ===== src/Rlist.antt =====
-- The resource lists of util.h: intrusive circular lists on an explicit heap of nodes.
pub mod Ring
pub mod Splice
pub mod Queue
pub mod Walk
pub mod Reverse
pub mod Select
mod Tests
use tinyos.Base.{ℕ, zero, suc, ◌+◌, Bool, true, false, ◌==◌, if◌then◌else◌, update}

-- The nodes by address: `rlnode`, with the union of keys as one number.
pub record Heap : Type 0 where
  pub key : ℕ → ℕ
  pub prev : ℕ → ℕ
  pub next : ℕ → ℕ

unfoldable pub rlnode_new : ℕ → Heap → Heap
rlnode_new p h = record h { prev = update h.prev p p; next = update h.next p p }

unfoldable pub rlnode_init : ℕ → ℕ → Heap → Heap
unfolding rlnode_new
rlnode_init p obj h = let h' = rlnode_new p h in record h' { key = update h'.key p obj }

-- `rlnode_swap` of the cells at two addresses of one field.
unfoldable pub rlnode_swap : ℕ → ℕ → (ℕ → ℕ) → ℕ → ℕ
rlnode_swap p q cells = update (update cells p (cells q)) q (cells p)

-- It returns `b`, which callers know.
unfoldable pub rl_splice : ℕ → ℕ → Heap → Heap
rl_splice a b h = record h {
  prev = rlnode_swap (h.next a) (h.next b) h.prev;
  next = rlnode_swap a b h.next;
}

unfoldable pub rlist_remove : ℕ → Heap → Heap
rlist_remove a h = rl_splice a (h.prev a) h

unfoldable pub is_rlist_empty : ℕ → Heap → Bool
is_rlist_empty a h = a == h.next a

unfoldable pub rlist_push_front : (list node : ℕ) → Heap → Heap
rlist_push_front list node h = rl_splice list node h

unfoldable pub rlist_push_back : (list node : ℕ) → Heap → Heap
rlist_push_back list node h = rl_splice (h.prev list) node h

unfoldable pub rlist_pop_front : ℕ → Heap → ℕ × Heap
rlist_pop_front list h = (h.next list, rl_splice list (h.next list) h)

unfoldable pub rlist_pop_back : ℕ → Heap → ℕ × Heap
rlist_pop_back list h = (h.prev list, rl_splice list (h.prev list) h)

unfoldable pub rlist_append : (ldest lsrc : ℕ) → Heap → Heap
rlist_append ldest lsrc h = rlist_remove lsrc (rlist_push_back ldest lsrc h)

unfoldable pub rlist_prepend : (ldest lsrc : ℕ) → Heap → Heap
rlist_prepend ldest lsrc h = rlist_remove lsrc (rlist_push_front ldest lsrc h)

-- The loop of `rlist_len` on fuel; 0 rounds left stand for a walk that does not come back.
unfoldable pub len_loop : (fuel list p count : ℕ) → Heap → ℕ
len_loop zero list p count h = count
len_loop (suc fuel) list p count h =
    let more = len_loop fuel list (h.next p) (count + 1) h in if p == list then count else more

unfoldable pub rlist_len : (fuel list : ℕ) → Heap → ℕ
rlist_len fuel list h = len_loop fuel list (h.next list) 0 h

-- The loop of `rlist_find`.
unfoldable pub find_loop : (fuel list key fail i : ℕ) → Heap → ℕ
find_loop zero list key fail i h = fail
find_loop (suc fuel) list key fail i h =
    let more = find_loop fuel list key fail (h.next i) h in
    if i == list then fail else if h.key i == key then i else more

unfoldable pub rlist_find : (fuel list key fail : ℕ) → Heap → ℕ
rlist_find fuel list key fail h = find_loop fuel list key fail (h.next list) h

-- The loop of `rlist_equal`; it compares the keys as integers.
unfoldable pub equal_loop : (fuel l1 l2 i1 i2 : ℕ) → Heap → Bool
equal_loop zero l1 l2 i1 i2 h = false
equal_loop (suc fuel) l1 l2 i1 i2 h =
    let more = equal_loop fuel l1 l2 (h.next i1) (h.next i2) h in
    if i1 == l1
    then i2 == l2
    else if i2 == l2
    then false
    else if h.key i1 == h.key i2
    then more
    else false

unfoldable pub rlist_equal : (fuel l1 l2 : ℕ) → Heap → Bool
rlist_equal fuel l1 l2 h = equal_loop fuel l1 l2 (h.next l1) (h.next l2) h

-- The swap of the two links of a node.
unfoldable pub swap_links : ℕ → Heap → Heap
swap_links p h = record h { prev = update h.prev p (h.next p); next = update h.next p (h.prev p) }

-- The loop of `rlist_reverse`, whose first round has no test.
unfoldable pub reverse_loop : (fuel l p : ℕ) → Heap → Heap
unfolding swap_links
reverse_loop zero l p h = h
reverse_loop (suc fuel) l p h =
    let swapped = swap_links p h in
    let more = reverse_loop fuel l (swapped.next p) swapped in
    if swapped.next p == l then swapped else more

unfoldable pub rlist_reverse : (fuel l : ℕ) → Heap → Heap
unfolding reverse_loop
rlist_reverse fuel l h = reverse_loop fuel l l h

-- The loop of `rlist_select`.
unfoldable pub select_loop : (fuel lsrc ldest : ℕ) → (pred : ℕ → Bool) → (i : ℕ) → Heap → Heap
unfolding rlist_remove rlist_push_back
select_loop zero lsrc ldest pred i h = h
select_loop (suc fuel) lsrc ldest pred i h =
    let p = h.next i in
    let moved = select_loop fuel lsrc ldest pred i (rlist_push_back ldest p (rlist_remove p h)) in
    let kept = select_loop fuel lsrc ldest pred p h in
    if p == lsrc then h else if pred p then moved else kept

unfoldable pub rlist_select : (fuel lsrc ldest : ℕ) → (pred : ℕ → Bool) → Heap → Heap
unfolding select_loop
rlist_select fuel lsrc ldest pred h = select_loop fuel lsrc ldest pred lsrc h

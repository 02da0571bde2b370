-- ===== src/Rlist/Tests.antt =====
-- The theorems on resource lists at two concrete lists.
use tinyos.Base.{not, ◌%◌, ◌+◌, ◌≡◌, [], ◌∷◌, ◌++◌, arith, ◌==◌, if◌then◌else◌}
use tinyos.Rlist.{Heap, rl_splice, rlist_remove, rlist_len, rlist_select}
use tinyos.Rlist.Ring.{IsList, IsDistinct}
use tinyos.Rlist.Queue.{rl_splice-rl_splice, rlist_remove-IsList}
use tinyos.Rlist.Select.{select, rlist_select-select}
use tinyos.Rlist.Walk.{rlist_len-length}

-- The list 1, 2 of the sentinel 0, and the list 6 of the sentinel 5.
abbrev heap : Heap
heap = record {
  key = λ z. z + 10;
  next = λ z.
      if z == 0
      then 1
      else if z == 1
      then 2
      else if z == 2
      then 0
      else if z == 5
      then 6
      else if z == 6
      then 5
      else z;
  prev = λ z.
      if z == 0
      then 2
      else if z == 1
      then 0
      else if z == 2
      then 1
      else if z == 5
      then 6
      else if z == 6
      then 5
      else z;
}

two : IsList heap 0 (1 ∷ 2 ∷ [])
two = record { links = omega arith; distinct = λ z. ground arith }

one : IsList heap 5 (6 ∷ [])
one = record { links = omega arith; distinct = λ z. ground arith }

apart : IsDistinct ((0 ∷ 1 ∷ 2 ∷ []) ++ (5 ∷ 6 ∷ []))
apart z = ground arith

len_two : rlist_len 9 0 heap ≡ 2
unfolding rlist_len
len_two = rlist_len-length heap 0 9 (1 ∷ 2 ∷ []) two (omega arith)

twice_spliced :
    let g = rl_splice 0 5 (rl_splice 0 5 heap) in (g.next 0 ≡ 1) × (g.prev 0 ≡ 2) × (g.key 0 ≡ 10)
twice_spliced = rl_splice-rl_splice heap 0 5 0

rlist_remove-IsList_example :
    IsList (rlist_remove 2 heap) 0 (1 ∷ []) × IsList (rlist_remove 2 heap) 2 []
rlist_remove-IsList_example = rlist_remove-IsList heap 0 2 (1 ∷ []) [] two

-- The even nodes are selected.
rlist_select-select_example :
    let g = rlist_select 3 0 5 (λ z. z % 2 == 0) heap in
    IsList g 0 (select (λ z. not (z % 2 == 0)) (1 ∷ 2 ∷ []))
    × IsList g 5 ((6 ∷ []) ++ select (λ z. z % 2 == 0) (1 ∷ 2 ∷ []))
rlist_select-select_example =
    rlist_select-select (λ z. z % 2 == 0) 0 5 3 (1 ∷ 2 ∷ []) (6 ∷ []) heap two one
      (λ z. ground arith) (omega arith)

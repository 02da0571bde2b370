-- ===== src/Rlist/Walk.antt =====
-- The walks over a list of util.h: length, search and comparison.
use tinyos.Base.{
  ℕ, zero, suc, ◌+◌, ◌<◌, ◌≡◌, List, [], ◌∷◌, arith, count, ◌==◌, if◌then◌else◌, ◌∙◌, length, Bool,
  true, false, ◌&&◌,
}
use tinyos.Rlist.{Heap, len_loop, rlist_len, find_loop, rlist_find, equal_loop, rlist_equal}
use tinyos.Rlist.Ring.{Links, IsList}

-- The first of the nodes with the key.
unfoldable pub find_key : (ℕ → ℕ) → (key fail : ℕ) → List ℕ → ℕ
find_key keys key fail [] = fail
find_key keys key fail (x ∷ xs) = if keys x == key then x else find_key keys key fail xs

-- Equality of two sequences of keys.
unfoldable pub same_keys : (ℕ → ℕ) → List ℕ → List ℕ → Bool
same_keys keys [] [] = true
same_keys keys [] (y ∷ ys) = false
same_keys keys (x ∷ xs) [] = false
same_keys keys (x ∷ xs) (y ∷ ys) = (keys x == keys y) && same_keys keys xs ys

module _ (h : Heap) (l : ℕ) where
  len_loop-length :
      (fuel a : ℕ) (xs : List ℕ) (c : ℕ)
      → Links h a xs l
      → count l xs ≡ 0
      → length xs < fuel
      → len_loop fuel l (h.next a) c h ≡ c + length xs
  unfolding len_loop
  len_loop-length zero a xs c p d f = absurd (omega arith)
  len_loop-length (suc fuel) a [] c p d f = ground arith
  len_loop-length (suc fuel) a (x ∷ xs) c p d f =
      ground (arith, len_loop-length fuel x xs (c + 1) p.2)

  find_loop-find_key :
      (fuel a key fail : ℕ) (xs : List ℕ)
      → Links h a xs l
      → count l xs ≡ 0
      → length xs < fuel
      → find_loop fuel l key fail (h.next a) h ≡ find_key h.key key fail xs
  unfolding find_loop find_key
  find_loop-find_key zero a key fail xs p d f = absurd (omega arith)
  find_loop-find_key (suc fuel) a key fail [] p d f = ground arith
  find_loop-find_key (suc fuel) a key fail (x ∷ xs) p d f =
      ground (arith, find_loop-find_key fuel x key fail xs p.2)

  -- Given more rounds than it has elements, the length of a list is the number of its elements.
  pub rlist_len-length :
      (fuel : ℕ) (xs : List ℕ) → IsList h l xs → length xs < fuel → rlist_len fuel l h ≡ length xs
  unfolding rlist_len
  rlist_len-length fuel xs p f =
      len_loop-length fuel l xs 0 p.links (ground (arith, p.distinct l)) f ∙ omega arith

  -- Given more rounds than it has elements, the search of a list finds the first node with the
  -- key, and the node to return on failure if there is none.
  pub rlist_find-find_key :
      (fuel key fail : ℕ) (xs : List ℕ)
      → IsList h l xs
      → length xs < fuel
      → rlist_find fuel l key fail h ≡ find_key h.key key fail xs
  unfolding rlist_find
  rlist_find-find_key fuel key fail xs p f =
      find_loop-find_key fuel l key fail xs p.links (ground (arith, p.distinct l)) f

equal_loop-same_keys :
    (h : Heap) (l1 l2 fuel a b : ℕ) (xs ys : List ℕ)
    → Links h a xs l1
    → Links h b ys l2
    → count l1 xs ≡ 0
    → count l2 ys ≡ 0
    → length xs < fuel
    → equal_loop fuel l1 l2 (h.next a) (h.next b) h ≡ same_keys h.key xs ys
unfolding equal_loop same_keys
equal_loop-same_keys h l1 l2 zero a b xs ys p q d e f = absurd (omega arith)
equal_loop-same_keys h l1 l2 (suc fuel) a b [] [] p q d e f = ground arith
equal_loop-same_keys h l1 l2 (suc fuel) a b [] (y ∷ ys) p q d e f = ground arith
equal_loop-same_keys h l1 l2 (suc fuel) a b (x ∷ xs) [] p q d e f = ground arith
equal_loop-same_keys h l1 l2 (suc fuel) a b (x ∷ xs) (y ∷ ys) p q d e f =
    ground (arith, equal_loop-same_keys h l1 l2 fuel x y xs ys p.2 q.2)

-- Given more rounds than the first has elements, two lists compare equal exactly when their keys
-- are the same sequence.
pub rlist_equal-same_keys :
    (h : Heap) (l1 l2 fuel : ℕ) (xs ys : List ℕ)
    → IsList h l1 xs
    → IsList h l2 ys
    → length xs < fuel
    → rlist_equal fuel l1 l2 h ≡ same_keys h.key xs ys
unfolding rlist_equal
rlist_equal-same_keys h l1 l2 fuel xs ys p q f =
    equal_loop-same_keys h l1 l2 fuel l1 l2 xs ys p.links q.links (ground (arith, p.distinct l1))
      (ground (arith, q.distinct l2)) f

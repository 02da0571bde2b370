-- ===== src/Streams/Refs.antt =====
-- The references to FCBs: the counts, the free list and the tables agree.
use tinyos.Base.{
  ℕ, ◌+◌, ◌-◌, ◌*◌, ◌^◌, ◌≤◌, ◌<◌, ◌≡◌, List, [], ◌∷◌, Option, none, some, ◌==◌, ltb, if◌then◌else◌,
  update, arith, count, count-append,
}
use tinyos.Base.Sums.{total, total-change, total-le}
use tinyos.Streams.{
  Files, Driver, max_fileid, max_files, fcb_incref, fcb_decref, acquire_fcb, release_fcb,
}

abbrev pub hits : ℕ → Option ℕ → ℕ
hits f none = 0
hits f (some g) = if g == f then 1 else 0

-- How many file ids of the first `n` processes refer to an FCB.
pub refs : (n f : ℕ) → (ℕ → ℕ → Option ℕ) → ℕ
refs n f fidt = total n (λ p. total max_fileid (λ i. hits f (fidt p i)))

-- Changing one entry of a table changes the count by that entry.
pub refs-update :
    (n f p i : ℕ) (v : Option ℕ) (fidt : ℕ → ℕ → Option ℕ)
    → p < n
    → i < max_fileid
    → refs n f (update fidt p (update (fidt p) i v)) + hits f (fidt p i) ≡ refs n f fidt + hits f v
unfolding refs
refs-update n f p i v fidt hp hi =
    let row =
      total-change max_fileid (λ j. hits f (fidt p j)) (λ j. hits f (update (fidt p) i v j)) i hi
        (λ j e. ground arith) in
    let all =
      total-change n (λ q. total max_fileid (λ j. hits f (fidt q j)))
        (λ q. total max_fileid (λ j. hits f (update fidt p (update (fidt p) i v) q j))) p hp
        (λ q e. rw e) in
    ground arith

pub refs-le : (n f : ℕ) (fidt : ℕ → ℕ → Option ℕ) → refs n f fidt ≤ n * max_fileid
unfolding refs
refs-le n f fidt =
    total-le n max_fileid (λ p. total max_fileid (λ i. hits f (fidt p i)))
      λ p h.
        omega (arith, total-le max_fileid 1 (λ i. hits f (fidt p i)) (λ i q. hits-le f (fidt p i)))
  where
    hits-le : (f : ℕ) (o : Option ℕ) → hits f o ≤ 1
    hits-le f none = omega arith
    hits-le f (some g) = ground arith

-- `uses f` references are held to each FCB, and `taken f` tells the FCBs that are off the
-- free list though no reference is held to them yet.
pub record IsCounted {Ops World : Type 0} (uses taken : ℕ → ℕ) (s : Files Ops World) : Type 0 where
  pub counted : (f : ℕ) → 0 < uses f + taken f → (s.fcb f).refcount ≡ uses f
  pub listed :
      (f : ℕ)
      → count f s.freelist + taken f
        ≡ (if ltb f max_files then (if uses f == 0 then 1 else 0) else 0)
  pub bounded : (f : ℕ) → 0 < uses f → f < max_files

module _ {Ops World : Type 0} where
  pub fcb_incref-IsCounted :
      (uses uses' taken taken' : ℕ → ℕ) (f : ℕ) (s : Files Ops World)
      → IsCounted uses taken s
      → 0 < uses f + taken f
      → uses f + 1 < 2 ^ 32
      → ((g : ℕ) → uses' g ≡ uses g + (if g == f then 1 else 0))
      → ((g : ℕ) → taken' g ≡ (if g == f then 0 else taken g))
      → IsCounted uses' taken' (fcb_incref f s)
  unfolding fcb_incref
  fcb_incref-IsCounted uses uses' taken taken' f s c h small e e' = record {
    counted = λ g q. ground (arith, e g, e' g, c.counted g);
    listed = λ g. ground (arith, e g, e' g, c.listed g);
    bounded = λ g q. ground (arith, e g, e' g, c.bounded g, c.listed g);
  }

  pub fcb_decref-IsCounted :
      (d : Driver Ops World) (uses uses' : ℕ → ℕ) (f : ℕ) (s : Files Ops World)
      → IsCounted uses (λ g. 0) s
      → 0 < uses f
      → uses f < 2 ^ 32
      → ((g : ℕ) → uses' g ≡ uses g - (if g == f then 1 else 0))
      → IsCounted uses' (λ g. 0) (fcb_decref d f s).1
  unfolding fcb_decref release_fcb
  fcb_decref-IsCounted d uses uses' f s c h small e = record {
    counted = λ g q. ground (arith, e g, c.counted g, c.counted f);
    listed = λ g. ground (
      arith,
      e g,
      c.listed g,
      c.listed f,
      c.counted f,
      c.bounded f,
      count-append g s.freelist (f ∷ []),
    );
    bounded = λ g q. ground (arith, e g, c.bounded g);
  }

  -- The FCB at the head of the free list.
  pub acquire_fcb-IsCounted :
      (uses taken taken' : ℕ → ℕ) (f : ℕ) (fs : List ℕ) (s : Files Ops World)
      → IsCounted uses taken s
      → s.freelist ≡ f ∷ fs
      → ((g : ℕ) → taken' g ≡ taken g + (if g == f then 1 else 0))
      → (uses f ≡ 0) × ((acquire_fcb s).0 ≡ some f) × IsCounted uses taken' (acquire_fcb s).1
  unfolding acquire_fcb
  acquire_fcb-IsCounted uses taken taken' f fs s c e e' = (
    ground (arith, c.listed f),
    ground arith,
    record {
      counted = λ g q. ground (arith, e' g, c.counted g, c.listed f);
      listed = λ g. ground (arith, e' g, c.listed g);
      bounded = λ g q. c.bounded g q;
    },
  )

-- Empty tables hold no reference.
pub refs-zero :
    (n f : ℕ) (fidt : ℕ → ℕ → Option ℕ) → ((p i : ℕ) → p < n → fidt p i ≡ none) → refs n f fidt ≡ 0
unfolding refs
refs-zero n f fidt e = omega (
  arith,
  total-le n 0 (λ p. total max_fileid (λ i. hits f (fidt p i)))
      λ p h.
        omega
          (arith, total-le max_fileid 0 (λ i. hits f (fidt p i)) (λ i q. ground (arith, e p i h))),
)

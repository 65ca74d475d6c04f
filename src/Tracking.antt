-- ===== src/Tracking.antt =====
-- The eviction that middleware/rate_limit.rs and middleware/auth.rs share word for word: at the cap
-- on tracked addresses, a new address pushes out the one whose last entry is oldest.
use mathlib.Core.Option
use aperture_router.Prelude.{
  ℕ, ◌+◌, ◌≤◌, ◌<◌, ◌≡◌, ◌≢◌, refl, true, false, not, ◌&&◌, Option, none, some, List, [], ◌∷◌,
  arith, if◌then◌else◌, leb, Eq, ◌==◌, ==_iff, length, last, All, All-keep, Bool-cases,
  Option-cases, inl, inr,
}
use aperture_router.Maps.{
  Map, contains_key, insert, remove, length-insert, length-remove, Unique, remove-Unique,
}

last-ne-none : (xs : List ℕ) → xs ≢ [] → last xs ≢ none
last-ne-none [] h = absurd (h refl)
last-ne-none (x ∷ []) h = ground arith
last-ne-none (x ∷ y ∷ ys) h = last-ne-none (y ∷ ys) (ground arith)

module _ {K : Type 0} ⦃e : Eq K⦄ where
  -- `min_by_key` keeps the first of several minima.
  abbrev pub older : Option (K × ℕ) → Option (K × ℕ) → Option (K × ℕ)
  older none b = b
  older (some a) none = some a
  older (some a) (some b) = if leb a.1 b.1 then some a else some b

  unfoldable pub oldest : Map K (List ℕ) → Option (K × ℕ)
  oldest [] = none
  oldest ((k, times) ∷ m) = older (Option.map (λ t. (k, t)) (last times)) (oldest m)

  abbrev drop_oldest : Option (K × ℕ) → Map K (List ℕ) → Map K (List ℕ)
  drop_oldest none m = m
  drop_oldest (some o) m = remove o.0 m

  unfoldable pub evict : ℕ → K → Map K (List ℕ) → Map K (List ℕ)
  evict cap k m =
      if leb cap (length m) && not (contains_key k m) then drop_oldest (oldest m) m else m

  abbrev pub IsTracked : K × List ℕ → Type 0
  IsTracked b = b.1 ≢ []

  -- Nobody is tracked with an empty list, and the map stays within the cap.
  pub record IsCapped (cap : ℕ) (m : Map K (List ℕ)) : Type 0 where
    pub tracked : All IsTracked m
    pub fits : length m ≤ cap

  contains_key-oldest :
      (m : Map K (List ℕ)) (o : K × ℕ) → oldest m ≡ some o → contains_key o.0 m ≡ true
  unfolding oldest contains_key
  contains_key-oldest [] o h = ground arith
  contains_key-oldest ((k, times) ∷ m) (j, t) h = elim (Option-cases (oldest m)) [
    | inl n ↦ ground (arith, ==_iff k j)
    | inr (p, q) ↦ ground (arith, ==_iff k j, contains_key-oldest m p)
  ]

  oldest-ne-none : (m : Map K (List ℕ)) → All IsTracked m → m ≢ [] → oldest m ≢ none
  unfolding oldest
  oldest-ne-none [] a h = absurd (h refl)
  oldest-ne-none ((k, times) ∷ m) (t, a) h = ground (arith, last-ne-none times t)

  pub length-evict :
      (cap : ℕ) (k : K) (m : Map K (List ℕ))
      → 0 < cap
      → IsCapped cap m
      → contains_key k m ≡ false
      → length (evict cap k m) + 1 ≤ cap
  unfolding evict
  length-evict cap k m pos c h = elim (Option-cases (oldest m)) [
    | inl n ↦ ground (arith, oldest-ne-none m c.tracked)
    | inr (o, q) ↦ ground (arith, length-remove o.0 m, contains_key-oldest m o q)
  ]

  pub evict_of_contains_key :
      (cap : ℕ) (k : K) (m : Map K (List ℕ)) → contains_key k m ≡ true → evict cap k m ≡ m
  unfolding evict
  evict_of_contains_key cap k m h = ground arith

  pub evict_of_room : (cap : ℕ) (k : K) (m : Map K (List ℕ)) → length m < cap → evict cap k m ≡ m
  unfolding evict
  evict_of_room cap k m h = ground arith

  evict-IsTracked :
      (cap : ℕ) (k : K) (m : Map K (List ℕ)) → All IsTracked m → All IsTracked (evict cap k m)
  unfolding evict remove
  evict-IsTracked cap k m a = elim (Option-cases (oldest m)) [
    | inl n ↦ ground arith
    | inr (o, q) ↦ ground (arith, All-keep IsTracked (λ b. not (b.0 == o.0)) m a)
  ]

  insert-IsTracked :
      (k : K) (v : List ℕ) (m : Map K (List ℕ))
      → v ≢ []
      → All IsTracked m
      → All IsTracked (insert k v m)
  unfolding insert
  insert-IsTracked k v [] h a = (h, tt)
  insert-IsTracked k v ((j, w) ∷ m) h (b, a) = ground (arith, insert-IsTracked k v m h a)

  pub evict-Unique : (cap : ℕ) (k : K) (m : Map K (List ℕ)) → Unique m → Unique (evict cap k m)
  unfolding evict
  evict-Unique cap k m u = elim (Option-cases (oldest m)) [
    | inl n ↦ ground arith
    | inr (o, q) ↦ ground (arith, remove-Unique o.0 m u)
  ]

  -- What both callers do: make room, then write a list that is not empty.
  pub insert-evict-IsCapped :
      (cap : ℕ) (k : K) (v : List ℕ) (m : Map K (List ℕ))
      → 0 < cap
      → v ≢ []
      → IsCapped cap m
      → IsCapped cap (insert k v (evict cap k m))
  insert-evict-IsCapped cap k v m pos h c = record {
    tracked = insert-IsTracked k v (evict cap k m) h (evict-IsTracked cap k m c.tracked);
    fits = elim (Bool-cases (contains_key k m)) [
      | inl old ↦
          ground
            (arith, length-insert k v (evict cap k m), evict_of_contains_key cap k m old, c.fits)
      | inr new ↦ ground (arith, length-insert k v (evict cap k m), length-evict cap k m pos c new)
    ];
  }

-- ===== src/Maps.antt =====
-- `HashMap` as an association list in iteration order: a lookup meets the first entry of a key, and
-- `insert` replaces in place or appends.
use mathlib.Core.Option
use aperture_router.Prelude.{
  suc, ◌+◌, ◌≤◌, ◌≡◌, refl, ◌∙◌, Bool, true, false, not, Option, none, some, List, [], ◌∷◌, arith,
  if◌then◌else◌, Eq, ◌==◌, ==_iff, length, keep, length-keep-le, and_then,
}

abbrev pub Map {ℓ} : Type ℓ → Type ℓ → Type ℓ
Map K V = List (K × V)

module _ {ℓ} {K V : Type ℓ} ⦃e : Eq K⦄ where
  unfoldable pub get : K → Map K V → Option V
  get k [] = none
  get k ((j, v) ∷ m) = if j == k then some v else get k m

  unfoldable pub contains_key : K → Map K V → Bool
  contains_key k [] = false
  contains_key k ((j, v) ∷ m) = if j == k then true else contains_key k m

  unfoldable pub insert : K → V → Map K V → Map K V
  insert k v [] = (k, v) ∷ []
  insert k v ((j, w) ∷ m) = let rest = insert k v m in if j == k then (k, v) ∷ m else (j, w) ∷ rest

  unfoldable pub remove : K → Map K V → Map K V
  remove k m = keep (λ b. not (b.0 == k)) m

  pub get-insert :
      (k j : K) (v : V) (m : Map K V) → get j (insert k v m) ≡ (if k == j then some v else get j m)
  unfolding get insert
  get-insert k j v [] = refl
  get-insert k j v ((i, w) ∷ m) =
      ground (arith, ==_iff k j, ==_iff i k, ==_iff i j, get-insert k j v m)

  pub get-remove : (k j : K) (m : Map K V) → get j (remove k m) ≡ (if k == j then none else get j m)
  unfolding get remove
  get-remove k j [] = ground arith
  get-remove k j ((i, w) ∷ m) = ground (arith, ==_iff k j, ==_iff i k, ==_iff i j, get-remove k j m)

  -- A filter on the values alone is a filter on what a lookup finds, if keys are met once.
  pub contains_key-get : (k : K) (m : Map K V) → contains_key k m ≡ false → get k m ≡ none
  unfolding get contains_key
  contains_key-get k [] h = refl
  contains_key-get k ((i, w) ∷ m) h = ground (arith, contains_key-get k m)

  pub get-contains_key : (k : K) (m : Map K V) → get k m ≡ none → contains_key k m ≡ false
  unfolding get contains_key
  get-contains_key k [] h = refl
  get-contains_key k ((i, w) ∷ m) h = ground (arith, get-contains_key k m)

  pub length-insert :
      (k : K) (v : V) (m : Map K V)
      → length (insert k v m) ≡ (if contains_key k m then length m else suc (length m))
  unfolding insert contains_key
  length-insert k v [] = refl
  length-insert k v ((i, w) ∷ m) = ground (arith, length-insert k v m)

  pub length-remove :
      (k : K) (m : Map K V) → contains_key k m ≡ true → length (remove k m) + 1 ≤ length m
  unfolding remove contains_key
  length-remove k [] h = ground arith
  length-remove k ((i, w) ∷ m) h =
      ground (arith, length-remove k m, length-keep-le (λ b. not (b.0 == k)) m)

  -- `HashMap::retain`
  unfoldable pub retain : (K → V → Bool) → Map K V → Map K V
  retain p m = keep (λ b. p b.0 b.1) m

  -- `values_mut`
  unfoldable pub map_values : (V → V) → Map K V → Map K V
  map_values f [] = []
  map_values f ((k, v) ∷ m) = (k, f v) ∷ map_values f m

  -- No key is met twice.
  abbrev pub Unique : Map K V → Type 0
  Unique [] = Unit
  Unique ((k, v) ∷ m) = (contains_key k m ≡ false) × Unique m

  pub contains_key-insert :
      (k j : K) (v : V) (m : Map K V)
      → contains_key j (insert k v m) ≡ (if k == j then true else contains_key j m)
  unfolding contains_key insert
  contains_key-insert k j v [] = refl
  contains_key-insert k j v ((i, w) ∷ m) =
      ground (arith, ==_iff k j, ==_iff i k, ==_iff i j, contains_key-insert k j v m)

  contains_key-keep :
      (p : K × V → Bool) (k : K) (m : Map K V)
      → contains_key k m ≡ false
      → contains_key k (keep p m) ≡ false
  unfolding contains_key
  contains_key-keep p k [] h = refl
  contains_key-keep p k ((i, w) ∷ m) h = ground (arith, contains_key-keep p k m)

  keep-Unique : (p : K × V → Bool) (m : Map K V) → Unique m → Unique (keep p m)
  keep-Unique p [] u = tt
  keep-Unique p ((i, w) ∷ m) (a, u) = ground (arith, keep-Unique p m u, contains_key-keep p i m a)

  pub insert-Unique : (k : K) (v : V) (m : Map K V) → Unique m → Unique (insert k v m)
  unfolding insert contains_key
  insert-Unique k v [] u = (refl, tt)
  insert-Unique k v ((i, w) ∷ m) (a, u) =
      ground (arith, insert-Unique k v m u, ==_iff i k, ==_iff k i, contains_key-insert k i v m)

  pub remove-Unique : (k : K) (m : Map K V) → Unique m → Unique (remove k m)
  unfolding remove
  remove-Unique k m u = keep-Unique (λ b. not (b.0 == k)) m u

  pub retain-Unique : (p : K → V → Bool) (m : Map K V) → Unique m → Unique (retain p m)
  unfolding retain
  retain-Unique p m u = keep-Unique (λ b. p b.0 b.1) m u

  contains_key-map_values :
      (f : V → V) (k : K) (m : Map K V) → contains_key k (map_values f m) ≡ contains_key k m
  unfolding contains_key map_values
  contains_key-map_values f k [] = refl
  contains_key-map_values f k ((i, w) ∷ m) = ground (arith, contains_key-map_values f k m)

  pub map_values-Unique : (f : V → V) (m : Map K V) → Unique m → Unique (map_values f m)
  unfolding map_values
  map_values-Unique f [] u = tt
  map_values-Unique f ((i, w) ∷ m) (a, u) =
      (contains_key-map_values f i m ∙ a, map_values-Unique f m u)

  pub get-map_values :
      (f : V → V) (k : K) (m : Map K V) → get k (map_values f m) ≡ Option.map f (get k m)
  unfolding get map_values
  get-map_values f k [] = refl
  get-map_values f k ((i, w) ∷ m) = ground (arith, get-map_values f k m)

  pub get-retain :
      (p : K → V → Bool) (k : K) (m : Map K V)
      → Unique m
      → get k (retain p m) ≡ and_then (get k m) (λ v. if p k v then some v else none)
  unfolding get retain
  get-retain p k [] u = refl
  get-retain p k ((i, w) ∷ m) (a, u) = ground (
    arith,
    get-retain p k m u,
    ==_iff i k,
    contains_key-get i m a,
    contains_key-get i (keep (λ b. p b.0 b.1) m) (contains_key-keep (λ b. p b.0 b.1) i m a),
  )

-- ===== src/Registry/Routes.antt =====
-- How the steps of an update change the lookup of a route.
use aperture_router.Prelude.{
  ◌≡◌, refl, true, ◌||◌, none, some, List, [], ◌∷◌, ◌++◌, if◌then◌else◌, ==_iff, contains, is_some,
  arith, All, All-append, Bool-cases, inl, inr, Eq,
}
use aperture_router.Maps
use aperture_router.Maps.{
  Map, contains_key, insert, retain, get-insert, Unique, insert-Unique, contains_key-get,
  get-contains_key,
}
use aperture_router.Text.{Text, text_eq}
use aperture_router.Config.{Provider}
use aperture_router.Registry.{
  route_all, route_new, unrouted, manual_entries, insert_all, valid_models,
}

pub contains-append {ℓ} :
    {A : Type ℓ} ⦃e : Eq A⦄ (xs ys : List A) (a : A)
    → contains (xs ++ ys) a ≡ contains xs a || contains ys a
contains-append [] ys a = refl
contains-append (x ∷ xs) ys a = ground (arith, contains-append xs ys a)

pub get-route_all :
    (name : Text) (models : List Text) (routes : Map Text Text) (m : Text)
    → Maps.get m (route_all name models routes)
      ≡ (if contains models m then some name else Maps.get m routes)
unfolding route_all
get-route_all name [] routes m = refl
get-route_all name (k ∷ models) routes m = ground (
  arith,
  get-route_all name models (insert k name routes) m,
  get-insert k m name routes,
  ==_iff k m,
)

-- A route that is there stays.
pub get-route_new :
    (name : Text) (models : List Text) (routes : Map Text Text) (m n : Text)
    → Maps.get m routes ≡ some n
    → Maps.get m (route_new name models routes) ≡ some n
unfolding route_new
get-route_new name [] routes m n h = h
get-route_new name (k ∷ models) routes m n h = elim (Bool-cases (is_some (Maps.get k routes))) [
  | inl there ↦ rw there (get-route_new name models routes m n h)
  | inr absent ↦ rw absent (
      get-route_new name models (insert k name routes) m n
        (ground (arith, get-insert k m name routes, ==_iff k m)))
]

abbrev AllNew : Map Text Text → List (Text × Text) → Type 0
AllNew routes entries = All (λ b. Maps.get b.0 routes ≡ none) entries

unrouted-AllNew :
    (routes : Map Text Text) (name : Text) (models : List Text)
    → AllNew routes (unrouted routes name models)
unrouted-AllNew routes name [] = tt
unrouted-AllNew routes name (k ∷ models) = elim (Bool-cases (contains_key k routes)) [
  | inl there ↦ rw there (unrouted-AllNew routes name models)
  | inr absent ↦ rw absent (contains_key-get k routes absent, unrouted-AllNew routes name models)
]

manual_entries-AllNew :
    (routes : Map Text Text) (providers : Map Text Provider)
    → AllNew routes (manual_entries routes providers)
unfolding manual_entries
manual_entries-AllNew routes [] = tt
manual_entries-AllNew routes ((name, p) ∷ providers) =
    All-append (λ b. Maps.get b.0 routes ≡ none) _ _ (unrouted-AllNew routes name p.models)
      (manual_entries-AllNew routes providers)

get-insert_other :
    (routes now : Map Text Text) (entries : List (Text × Text)) (m n : Text)
    → AllNew routes entries
    → Maps.get m routes ≡ some n
    → Maps.get m now ≡ some n
    → Maps.get m (insert_all entries now) ≡ some n
unfolding insert_all
get-insert_other routes now [] m n a h k = k
get-insert_other routes now ((model, name) ∷ entries) m n (a, later) h k =
    get-insert_other routes (insert model name now) entries m n later h
      (ground (arith, get-insert model m name now, ==_iff model m))

pub get-add_manual :
    (routes : Map Text Text) (providers : Map Text Provider) (m n : Text)
    → Maps.get m routes ≡ some n
    → Maps.get m (insert_all (manual_entries routes providers) routes) ≡ some n
get-add_manual routes providers m n h =
    get-insert_other routes routes (manual_entries routes providers) m n
      (manual_entries-AllNew routes providers) h h

pub valid_models_of_get :
    (providers : Map Text Provider) (n m : Text) (p : Provider)
    → Maps.get n providers ≡ some p
    → contains p.models m ≡ true
    → contains (valid_models providers) m ≡ true
unfolding Maps.get valid_models
valid_models_of_get [] n m p h c = absurd (cc h)
valid_models_of_get ((k, q) ∷ providers) n m p h c = ground (
  arith,
  contains-append q.models (valid_models providers) m,
  valid_models_of_get providers n m p,
)

pub contains_key_of_get :
    {V : Type 0} (n : Text) (v : V) (m : Map Text V)
    → Maps.get n m ≡ some v
    → contains_key n m ≡ true
contains_key_of_get n v m h = elim (Bool-cases (contains_key n m)) [
  | inl there ↦ there
  | inr absent ↦ absurd (cc (contains_key-get n m absent, h))
]

-- Keys stay unique.
pub route_all-Unique :
    (name : Text) (models : List Text) (routes : Map Text Text)
    → Unique routes
    → Unique (route_all name models routes)
unfolding route_all
route_all-Unique name [] routes u = u
route_all-Unique name (k ∷ models) routes u =
    route_all-Unique name models (insert k name routes) (insert-Unique k name routes u)

pub route_new-Unique :
    (name : Text) (models : List Text) (routes : Map Text Text)
    → Unique routes
    → Unique (route_new name models routes)
unfolding route_new
route_new-Unique name [] routes u = u
route_new-Unique name (k ∷ models) routes u = elim (Bool-cases (is_some (Maps.get k routes))) [
  | inl there ↦ rw there (route_new-Unique name models routes u)
  | inr absent ↦
      rw absent
        (route_new-Unique name models (insert k name routes) (insert-Unique k name routes u))
]

pub insert_all-Unique :
    (entries : List (Text × Text)) (routes : Map Text Text)
    → Unique routes
    → Unique (insert_all entries routes)
unfolding insert_all
insert_all-Unique [] routes u = u
insert_all-Unique ((model, name) ∷ entries) routes u =
    insert_all-Unique entries (insert model name routes) (insert-Unique model name routes u)

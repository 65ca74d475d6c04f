-- ===== src/Registry/Links.antt =====
-- What a step on the routes does to where they lead.
use aperture_router.Prelude.{
  ◌≡◌, refl, Bool, true, ◌&&◌, some, List, [], ◌∷◌, keep, ◌==◌, ==_iff, ==_self, is_some, arith,
  All, All-append, Bool-cases, inl, inr,
}
use aperture_router.Maps
use aperture_router.Maps.{
  Map, contains_key, insert, retain, contains_key-insert, contains_key-get, get-contains_key,
}
use aperture_router.Text.{Text, text_eq}
use aperture_router.Config.{Provider}
use aperture_router.Registry.{unrouted, manual_entries, insert_all, route_all, route_new}

-- Every route leads to a provider of the map.
abbrev pub Leads : Map Text Provider → Map Text Text → Type 0
Leads providers routes = All (λ b. contains_key b.1 providers ≡ true) routes

-- The first map has all the names of the second.
abbrev pub HasNamesOf : Map Text Provider → Map Text Provider → Type 0
HasNamesOf larger smaller =
    (n : Text) → contains_key n smaller ≡ true → contains_key n larger ≡ true

pub Leads-more :
    (larger smaller : Map Text Provider) (routes : Map Text Text)
    → HasNamesOf larger smaller
    → Leads smaller routes
    → Leads larger routes
Leads-more larger smaller [] more l = tt
Leads-more larger smaller ((m, n) ∷ routes) more (known, l) =
    (more n known, Leads-more larger smaller routes more l)

pub insert-Leads :
    (providers : Map Text Provider) (m n : Text) (routes : Map Text Text)
    → contains_key n providers ≡ true
    → Leads providers routes
    → Leads providers (insert m n routes)
unfolding insert
insert-Leads providers m n [] known l = (known, tt)
insert-Leads providers m n ((k, v) ∷ routes) known (first, l) = elim (Bool-cases (k == m)) [
  | inl same ↦ rw same (known, l)
  | inr other ↦ rw other (first, insert-Leads providers m n routes known l)
]

pub get-Leads :
    (providers : Map Text Provider) (routes : Map Text Text) (m n : Text)
    → Leads providers routes
    → Maps.get m routes ≡ some n
    → contains_key n providers ≡ true
unfolding Maps.get
get-Leads providers [] m n l h = absurd (cc h)
get-Leads providers ((k, v) ∷ routes) m n (known, l) h =
    ground (arith, known, h, get-Leads providers routes m n l)

-- `retain` on the names, and the same test on the providers.
pub contains_key-retain :
    (p : Text → Bool) (n : Text) (providers : Map Text Provider)
    → contains_key n (retain (λ name _. p name) providers) ≡ contains_key n providers && p n
unfolding contains_key retain
contains_key-retain p n [] = refl
contains_key-retain p n ((k, v) ∷ providers) =
    ground (arith, ==_iff k n, contains_key-retain p n providers)

pub retain-Leads :
    (p : Text → Bool) (providers : Map Text Provider) (routes : Map Text Text)
    → Leads providers routes
    → Leads (retain (λ name _. p name) providers) (retain (λ _ name. p name) routes)
unfolding retain
retain-Leads p providers [] l = tt
retain-Leads p providers ((m, n) ∷ routes) (known, l) = elim (Bool-cases (p n)) [
  | inl kept ↦ rw kept (
    ground (arith, kept, known, contains_key-retain p n providers),
    retain-Leads p providers routes l,
  )
  | inr dropped ↦ rw dropped (retain-Leads p providers routes l)
]

pub keep-Leads :
    (p : Text × Text → Bool) (providers : Map Text Provider) (routes : Map Text Text)
    → Leads providers routes
    → Leads providers (keep p routes)
keep-Leads p providers [] l = tt
keep-Leads p providers ((m, n) ∷ routes) (known, l) = elim (Bool-cases (p (m, n))) [
  | inl kept ↦ rw kept (known, keep-Leads p providers routes l)
  | inr dropped ↦ rw dropped (keep-Leads p providers routes l)
]

pub route_all-Leads :
    (providers : Map Text Provider) (name : Text) (models : List Text) (routes : Map Text Text)
    → contains_key name providers ≡ true
    → Leads providers routes
    → Leads providers (route_all name models routes)
unfolding route_all
route_all-Leads providers name [] routes known l = l
route_all-Leads providers name (m ∷ models) routes known l =
    route_all-Leads providers name models _ known (insert-Leads providers m name routes known l)

pub route_new-Leads :
    (providers : Map Text Provider) (name : Text) (models : List Text) (routes : Map Text Text)
    → contains_key name providers ≡ true
    → Leads providers routes
    → Leads providers (route_new name models routes)
unfolding route_new
route_new-Leads providers name [] routes known l = l
route_new-Leads providers name (m ∷ models) routes known l =
    elim (Bool-cases (is_some (Maps.get m routes))) [
      | inl there ↦ rw there (route_new-Leads providers name models routes known l)
      | inr absent ↦ rw absent (
          route_new-Leads providers name models _ known
            (insert-Leads providers m name routes known l))
    ]

pub insert_all-Leads :
    (providers : Map Text Provider) (entries : List (Text × Text)) (routes : Map Text Text)
    → Leads providers entries
    → Leads providers routes
    → Leads providers (insert_all entries routes)
unfolding insert_all
insert_all-Leads providers [] routes e l = l
insert_all-Leads providers ((m, n) ∷ entries) routes (known, e) l =
    insert_all-Leads providers entries _ e (insert-Leads providers m n routes known l)

pub unrouted-Leads :
    (providers : Map Text Provider) (routes : Map Text Text) (name : Text) (models : List Text)
    → contains_key name providers ≡ true
    → Leads providers (unrouted routes name models)
unrouted-Leads providers routes name [] known = tt
unrouted-Leads providers routes name (m ∷ models) known =
    elim (Bool-cases (contains_key m routes)) [
      | inl there ↦ rw there (unrouted-Leads providers routes name models known)
      | inr absent ↦ rw absent (known, unrouted-Leads providers routes name models known)
    ]

pub manual_entries-Leads :
    (all providers : Map Text Provider) (routes : Map Text Text)
    → HasNamesOf all providers
    → Leads all (manual_entries routes providers)
unfolding manual_entries contains_key
manual_entries-Leads all [] routes more = tt
manual_entries-Leads all ((name, p) ∷ providers) routes more =
    All-append (λ b. contains_key b.1 all ≡ true) _ _
      (unrouted-Leads all routes name p.models (more name (ground (arith, ==_self name))))
      (manual_entries-Leads all providers routes (λ n there. more n (ground (arith, there))))

-- ===== src/Registry/Routed.antt =====
-- Which models have a route after a discovery.
use aperture_router.Prelude.{
  ◌≡◌, refl, Bool, true, false, not, ◌&&◌, ◌||◌, none, some, List, [], ◌∷◌, ◌++◌, ==_iff, contains,
  is_some, arith, Bool-cases, Option-cases, inl, inr,
}
use aperture_router.Maps
use aperture_router.Maps.{
  Map, contains_key, insert, retain, contains_key-insert, contains_key-get, get-contains_key,
}
use aperture_router.Text.{Text, text_eq}
use aperture_router.Config.{Provider}
use aperture_router.Registry.{
  RegistryInner, Snapshot, new, drop_stale, add_groups, add_manual, drop_invalid,
  update_from_discovery, get_provider_for_model, valid_models, unrouted, manual_entries, insert_all,
}
use aperture_router.Registry.Routes.{contains-append}
use aperture_router.Registry.Static.{refresh_all}
use aperture_router.Registry.Links.{get-Leads}
use aperture_router.Registry.Known.{
  IsLinked, new-IsLinked, refresh_all-IsLinked, completed, add_manual-IsLinked,
}

contains_key-append :
    (m : Text) (xs ys : Map Text Text)
    → contains_key m (xs ++ ys) ≡ contains_key m xs || contains_key m ys
unfolding contains_key
contains_key-append m [] ys = refl
contains_key-append m ((k, v) ∷ xs) ys = ground (arith, contains_key-append m xs ys)

contains_key-unrouted :
    (m name : Text) (routes : Map Text Text) (models : List Text)
    → contains_key m (unrouted routes name models)
      ≡ contains models m && not (contains_key m routes)
unfolding contains_key
contains_key-unrouted m name routes [] = refl
contains_key-unrouted m name routes (k ∷ models) =
    ground (arith, ==_iff k m, ==_iff m k, contains_key-unrouted m name routes models)

contains_key-manual_entries :
    (m : Text) (routes : Map Text Text) (providers : Map Text Provider)
    → contains_key m (manual_entries routes providers)
      ≡ contains (valid_models providers) m && not (contains_key m routes)
unfolding manual_entries valid_models contains_key
contains_key-manual_entries m routes [] = refl
contains_key-manual_entries m routes ((name, p) ∷ providers) = ground (
  arith,
  contains_key-append m (unrouted routes name p.models) (manual_entries routes providers),
  contains_key-unrouted m name routes p.models,
  contains-append p.models (valid_models providers) m,
  contains_key-manual_entries m routes providers,
)

contains_key-insert_all :
    (m : Text) (entries : List (Text × Text)) (routes : Map Text Text)
    → contains_key m (insert_all entries routes) ≡ contains_key m entries || contains_key m routes
unfolding insert_all contains_key
contains_key-insert_all m [] routes = refl
contains_key-insert_all m ((k, n) ∷ entries) routes =
    ground (
      arith,
      contains_key-insert_all m entries (insert k n routes),
      contains_key-insert k m n routes,
    )

is_some-get : {V : Type 0} (k : Text) (m : Map Text V) → is_some (Maps.get k m) ≡ contains_key k m
is_some-get k m = elim (Bool-cases (contains_key k m)) [
  | inr absent ↦ ground (arith, absent, contains_key-get k m absent)
  | inl there ↦ elim (Option-cases (Maps.get k m)) [
    | inl nothing ↦ absurd (ground (arith, there, get-contains_key k m nothing))
    | inr (v, found) ↦ ground (arith, there, found)
  ]
]

-- What passes the test is found again.
get-retain_kept :
    (p : Text → Text → Bool) (m n : Text) (routes : Map Text Text)
    → Maps.get m routes ≡ some n
    → p m n ≡ true
    → Maps.get m (retain p routes) ≡ some n
unfolding Maps.get retain
get-retain_kept p m n [] h ok = h
get-retain_kept p m n ((k, v) ∷ routes) h ok =
    ground (arith, h, ok, ==_iff k m, get-retain_kept p m n routes)

-- A key that passes with no value is not found.
get-retain_dropped :
    (p : Text → Text → Bool) (m : Text) (routes : Map Text Text)
    → ((n : Text) → p m n ≡ false)
    → Maps.get m (retain p routes) ≡ none
unfolding Maps.get retain
get-retain_dropped p m [] never = refl
get-retain_dropped p m ((k, n) ∷ routes) never =
    ground (arith, ==_iff k m, never n, get-retain_dropped p m routes never)

-- The last two steps of an update.
routed :
    (m : Text) (inner : RegistryInner)
    → IsLinked inner
    → is_some (get_provider_for_model m (drop_invalid (add_manual inner)))
      ≡ contains (valid_models inner.providers) m
unfolding drop_invalid add_manual get_provider_for_model
routed m inner l =
    let valid = λ (model name : Text).
      contains (valid_models inner.providers) model && contains_key name inner.providers in
    let entries = manual_entries inner.model_to_provider inner.providers in
    let routes = insert_all entries inner.model_to_provider in
    elim (Bool-cases (contains (valid_models inner.providers) m)) [
      | inr unlisted ↦
          ground
            (arith, unlisted, get-retain_dropped valid m routes (λ n. ground (arith, unlisted)))
      | inl listed ↦ elim (Option-cases (Maps.get m routes)) [
        | inl nothing ↦ absurd (
            ground (
              arith,
              listed,
              get-contains_key m routes nothing,
              contains_key-insert_all m entries inner.model_to_provider,
              contains_key-manual_entries m inner.model_to_provider inner.providers,
            ))
        | inr (n, found) ↦
            let known = get-Leads inner.providers routes m n (add_manual-IsLinked inner l) found in
            ground (
              arith,
              listed,
              is_some-get n inner.providers,
              known,
              get-retain_kept valid m n routes found (ground (arith, listed, known)),
            )
      ]
    ]

-- After a discovery update, whatever updates came before it, a model has a provider exactly when
-- some provider of the registry lists the model.
pub get_provider_for_model-update :
    (m : Text) (ps : List Provider) (updates : List (Snapshot × Text)) (snapshot : Snapshot)
    (url : Text)
    → let inner = update_from_discovery snapshot url (refresh_all updates (new ps)) in
      is_some (get_provider_for_model m inner) ≡ contains (valid_models inner.providers) m
unfolding update_from_discovery drop_invalid add_manual
get_provider_for_model-update m ps updates snapshot url =
    routed m (add_groups url snapshot (drop_stale snapshot (refresh_all updates (new ps))))
      (completed snapshot url _ (refresh_all-IsLinked updates (new ps) (new-IsLinked ps)))

-- ===== src/Registry/Known.antt =====
-- Every route leads to a provider that the registry has, after each step.
use aperture_router.Prelude.{
  ◌≡◌, ◌||◌, List, [], ◌∷◌, ◌==◌, ==_iff, ==_self, contains, arith, Bool-cases, Option-cases, inl,
  inr,
}
use aperture_router.Maps
use aperture_router.Maps.{
  Map, contains_key, insert, retain, contains_key-insert, contains_key-get, get-contains_key,
}
use aperture_router.Text.{Text, text_eq}
use aperture_router.Config.{Provider}
use aperture_router.Registry.{
  RegistryInner, Snapshot, empty, add_configured, add_all, new, is_kept, drop_stale, put_provider,
  add_group, add_groups, add_manual, drop_invalid, update_from_discovery, discovered, with_models,
}
use aperture_router.Registry.Routes.{contains_key_of_get}
use aperture_router.Registry.Static.{refresh_all, add_configured_on, add_configured_off}
use aperture_router.Registry.Links.{
  Leads, Leads-more, route_all-Leads, retain-Leads, route_new-Leads, insert_all-Leads,
  manual_entries-Leads, keep-Leads,
}

-- The invariant of a registry.
abbrev pub IsLinked : RegistryInner → Type 0
IsLinked inner = Leads inner.providers inner.model_to_provider

add_configured-IsLinked :
    (p : Provider) (inner : RegistryInner) → IsLinked inner → IsLinked (add_configured p inner)
add_configured-IsLinked p inner l = elim (Bool-cases p.enabled) [
  | inr off ↦ rw (add_configured_off p inner off) l
  | inl on ↦ rw (add_configured_on p inner on) (
      route_all-Leads _ p.name p.models inner.model_to_provider
        (ground (arith, contains_key-insert p.name p.name p inner.providers, ==_self p.name))
        (Leads-more _ inner.providers inner.model_to_provider
          (λ n there. ground (arith, there, contains_key-insert p.name n p inner.providers)) l))
]

add_all-IsLinked :
    (ps : List Provider) (inner : RegistryInner) → IsLinked inner → IsLinked (add_all ps inner)
unfolding add_all
add_all-IsLinked [] inner l = l
add_all-IsLinked (p ∷ ps) inner l =
    add_all-IsLinked ps (add_configured p inner) (add_configured-IsLinked p inner l)

pub new-IsLinked : (ps : List Provider) → IsLinked (new ps)
unfolding new
new-IsLinked ps = add_all-IsLinked ps empty tt

drop_stale-IsLinked :
    (snapshot : Snapshot) (inner : RegistryInner)
    → IsLinked inner
    → IsLinked (drop_stale snapshot inner)
unfolding drop_stale
drop_stale-IsLinked snapshot inner l =
    retain-Leads (is_kept snapshot inner.static_providers) inner.providers inner.model_to_provider l

-- The names after a group: those before, and the group's.
pub contains_key-put_provider :
    (url name n : Text) (ids : List Text) (inner : RegistryInner)
    → contains_key n (put_provider url name ids inner)
      ≡ contains_key n inner.providers || (name == n)
unfolding put_provider
contains_key-put_provider url name n ids inner =
    elim (Option-cases (Maps.get name inner.providers)) [
      | inl absent ↦ ground (
        arith,
        ==_iff name n,
        get-contains_key name inner.providers absent,
        contains_key-insert name n (discovered name ids url) inner.providers,
      )
      | inr (q, there) ↦ ground (
        arith,
        ==_iff name n,
        contains_key_of_get name q inner.providers there,
        contains_key-insert name n (with_models ids q) inner.providers,
      )
    ]

add_group-IsLinked :
    (url name : Text) (ids : List Text) (inner : RegistryInner)
    → IsLinked inner
    → IsLinked (add_group url name ids inner)
unfolding add_group
add_group-IsLinked url name ids inner l =
    elim (Bool-cases (contains inner.disabled_static_providers name)) [
      | inl disabled ↦ rw disabled l
      | inr active ↦ rw active (
          route_new-Leads (put_provider url name ids inner) name ids inner.model_to_provider
            (ground (arith, contains_key-put_provider url name name ids inner, ==_self name))
            (Leads-more _ inner.providers inner.model_to_provider
              (λ n there. ground (arith, there, contains_key-put_provider url name n ids inner)) l))
    ]

add_groups-IsLinked :
    (url : Text) (groups : Snapshot) (inner : RegistryInner)
    → IsLinked inner
    → IsLinked (add_groups url groups inner)
unfolding add_groups
add_groups-IsLinked url [] inner l = l
add_groups-IsLinked url ((name, ids) ∷ groups) inner l =
    add_groups-IsLinked url groups (add_group url name ids inner)
      (add_group-IsLinked url name ids inner l)

pub add_manual-IsLinked : (inner : RegistryInner) → IsLinked inner → IsLinked (add_manual inner)
unfolding add_manual
add_manual-IsLinked inner l =
    insert_all-Leads inner.providers _ inner.model_to_provider
      (manual_entries-Leads inner.providers inner.providers inner.model_to_provider
        (λ n there. there))
      l

drop_invalid-IsLinked : (inner : RegistryInner) → IsLinked inner → IsLinked (drop_invalid inner)
unfolding drop_invalid retain
drop_invalid-IsLinked inner l = keep-Leads _ inner.providers inner.model_to_provider l

-- Before the last step of an update.
pub completed :
    (snapshot : Snapshot) (url : Text) (inner : RegistryInner)
    → IsLinked inner
    → IsLinked (add_groups url snapshot (drop_stale snapshot inner))
completed snapshot url inner l =
    add_groups-IsLinked url snapshot _ (drop_stale-IsLinked snapshot inner l)

pub update-IsLinked :
    (snapshot : Snapshot) (url : Text) (inner : RegistryInner)
    → IsLinked inner
    → IsLinked (update_from_discovery snapshot url inner)
unfolding update_from_discovery
update-IsLinked snapshot url inner l =
    drop_invalid-IsLinked _ (add_manual-IsLinked _ (completed snapshot url inner l))

pub refresh_all-IsLinked :
    (updates : List (Snapshot × Text)) (inner : RegistryInner)
    → IsLinked inner
    → IsLinked (refresh_all updates inner)
unfolding refresh_all
refresh_all-IsLinked [] inner l = l
refresh_all-IsLinked ((snapshot, url) ∷ updates) inner l =
    refresh_all-IsLinked updates _ (update-IsLinked snapshot url inner l)

-- ===== src/Registry/Disabled.antt =====
-- The names of disabled providers of the configuration.
use aperture_router.Prelude.{
  ◌≡◌, refl, Bool, true, false, not, ◌&&◌, ◌||◌, none, List, [], ◌∷◌, any, ◌==◌, ==_iff, contains,
  arith, Bool-cases, inl, inr,
}
use aperture_router.Maps.{contains_key, contains_key-get, contains_key-insert}
use aperture_router.Text.{Text, text_eq}
use aperture_router.Config.{Provider}
use aperture_router.Registry.{
  RegistryInner, Snapshot, empty, add_all, new, is_kept, drop_stale, add_group, add_groups,
  add_manual, drop_invalid, update_from_discovery, get_provider,
}
use aperture_router.Registry.Static.{refresh_all, add_configured_on, add_configured_off}
use aperture_router.Registry.Links.{contains_key-retain}
use aperture_router.Registry.Known.{contains_key-put_provider}

-- The name is reserved and no provider has it.
record IsReserved (n : Text) (inner : RegistryInner) : Type 0 where
  disabled : contains inner.disabled_static_providers n ≡ true
  absent : contains_key n inner.providers ≡ false

abbrev pub is_disabled : Text → List Provider → Bool
is_disabled n ps = any (λ p. p.name == n && not p.enabled) ps

abbrev pub is_enabled : Text → List Provider → Bool
is_enabled n ps = any (λ p. p.name == n && p.enabled) ps

module _ (n : Text) where
  add_all-IsReserved :
      (ps : List Provider) (inner : RegistryInner)
      → is_enabled n ps ≡ false
      → contains inner.disabled_static_providers n || is_disabled n ps ≡ true
      → contains_key n inner.providers ≡ false
      → IsReserved n (add_all ps inner)
  unfolding add_all
  add_all-IsReserved [] inner off dis gone = record {
    disabled = ground (arith, dis);
    absent = gone;
  }
  add_all-IsReserved (p ∷ ps) inner off dis gone = elim (Bool-cases p.enabled) [
    | inr disabled ↦ rw (add_configured_off p inner disabled) (
        add_all-IsReserved ps _ (ground (arith, off, disabled)) (ground (arith, dis, disabled))
          gone)
    | inl enabled ↦ rw (add_configured_on p inner enabled) (
        add_all-IsReserved ps _ (ground (arith, off, enabled)) (ground (arith, dis, enabled))
          (ground (arith, off, enabled, gone, contains_key-insert p.name n p inner.providers)))
  ]

  drop_stale-IsReserved :
      (snapshot : Snapshot) (inner : RegistryInner)
      → IsReserved n inner
      → IsReserved n (drop_stale snapshot inner)
  unfolding drop_stale
  drop_stale-IsReserved snapshot inner r = record {
    disabled = r.disabled;
    absent = ground (
      arith,
      r.absent,
      contains_key-retain (is_kept snapshot inner.static_providers) n inner.providers,
    );
  }

  add_groups-IsReserved :
      (url : Text) (groups : Snapshot) (inner : RegistryInner)
      → IsReserved n inner
      → IsReserved n (add_groups url groups inner)
  unfolding add_groups add_group
  add_groups-IsReserved url [] inner r = r
  add_groups-IsReserved url ((name, ids) ∷ groups) inner r =
      elim (Bool-cases (contains inner.disabled_static_providers name)) [
        | inl disabled ↦ rw disabled (add_groups-IsReserved url groups inner r)
        | inr active ↦ rw active (
            add_groups-IsReserved url groups _ (record {
              disabled = r.disabled;
              absent = ground (
                arith,
                r.absent,
                r.disabled,
                active,
                ==_iff name n,
                contains_key-put_provider url name n ids inner,
              );
            }))
      ]

  update-IsReserved :
      (snapshot : Snapshot) (url : Text) (inner : RegistryInner)
      → IsReserved n inner
      → IsReserved n (update_from_discovery snapshot url inner)
  unfolding update_from_discovery drop_invalid add_manual
  update-IsReserved snapshot url inner r =
      let done = add_groups-IsReserved url snapshot _ (drop_stale-IsReserved snapshot inner r) in
      record { disabled = done.disabled; absent = done.absent }

  refresh_all-IsReserved :
      (updates : List (Snapshot × Text)) (inner : RegistryInner)
      → IsReserved n inner
      → IsReserved n (refresh_all updates inner)
  unfolding refresh_all
  refresh_all-IsReserved [] inner r = r
  refresh_all-IsReserved ((snapshot, url) ∷ updates) inner r =
      refresh_all-IsReserved updates _ (update-IsReserved snapshot url inner r)

-- The configuration disables a provider with a name and enables none with that name. Then the
-- registry has no provider of that name at the start and after every series of discovery updates.
pub get_provider-refresh_all :
    (n : Text) (ps : List Provider) (updates : List (Snapshot × Text))
    → is_disabled n ps ≡ true
    → is_enabled n ps ≡ false
    → get_provider n (refresh_all updates (new ps)) ≡ none
unfolding get_provider new contains_key
get_provider-refresh_all n ps updates disabled never =
    contains_key-get n _
      (refresh_all-IsReserved n updates _
        (add_all-IsReserved n ps empty never (ground (arith, disabled)) refl)).absent

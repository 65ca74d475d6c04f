-- ===== src/Registry/Fixed.antt =====
-- What an update keeps of a route to a provider of the configuration.
use aperture_router.Prelude.{
  ◌≡◌, refl, true, ◌&&◌, some, List, [], ◌∷◌, ==_iff, contains, arith, Bool-cases, Option-cases,
  inl, inr,
}
use aperture_router.Maps
use aperture_router.Maps.{
  Map, contains_key, insert, retain, get-insert, get-retain, Unique, insert-Unique, retain-Unique,
}
use aperture_router.Text.{Text, text_eq}
use aperture_router.Config.{Provider}
use aperture_router.Registry.{
  RegistryInner, Snapshot, is_kept, drop_stale, put_provider, add_group, add_groups, add_manual,
  drop_invalid, update_from_discovery, get_provider_for_model, discovered, with_models,
  valid_models, manual_entries,
}
use aperture_router.Registry.Routes.{
  get-route_new, get-add_manual, valid_models_of_get, contains_key_of_get, route_new-Unique,
  insert_all-Unique,
}

-- The keys of both maps are unique.
pub record HasKeys (inner : RegistryInner) : Type 0 where
  pub names : Unique inner.providers
  pub routes : Unique inner.model_to_provider

-- The model has a route to a provider of the configuration that lists it.
pub record IsFixed (m : Text) (p : Provider) (inner : RegistryInner) : Type 0 where
  pub keys : HasKeys inner
  pub route : Maps.get m inner.model_to_provider ≡ some p.name
  pub configured : contains inner.static_providers p.name ≡ true
  pub entry : Maps.get p.name inner.providers ≡ some p
  pub listed : contains p.models m ≡ true

module _ (m : Text) (p : Provider) where
  drop_stale-IsFixed :
      (snapshot : Snapshot) (inner : RegistryInner)
      → IsFixed m p inner
      → IsFixed m p (drop_stale snapshot inner)
  unfolding drop_stale
  drop_stale-IsFixed snapshot inner f = record {
    keys = record {
      names =
          retain-Unique (λ name _. is_kept snapshot inner.static_providers name) inner.providers
            f.keys.names;
      routes =
          retain-Unique (λ _ name. is_kept snapshot inner.static_providers name)
            inner.model_to_provider f.keys.routes;
    };
    route = ground (
      arith,
      f.route,
      f.configured,
      get-retain (λ _ name. is_kept snapshot inner.static_providers name) m inner.model_to_provider
          f.keys.routes,
    );
    configured = f.configured;
    entry = ground (
      arith,
      f.entry,
      f.configured,
      get-retain (λ name _. is_kept snapshot inner.static_providers name) p.name inner.providers
          f.keys.names,
    );
    listed = f.listed;
  }

  -- Another provider is put, or none is.
  put_provider-Unique :
      (url name : Text) (ids : List Text) (inner : RegistryInner)
      → Unique inner.providers
      → Unique (put_provider url name ids inner)
  unfolding put_provider
  put_provider-Unique url name ids inner u = elim (Option-cases (Maps.get name inner.providers)) [
    | inl absent ↦ ground (arith, insert-Unique name (discovered name ids url) inner.providers u)
    | inr (q, there) ↦ ground (
      arith,
      insert-Unique name (discovered name ids url) inner.providers u,
      insert-Unique name (with_models ids q) inner.providers u,
    )
  ]

  get-put_provider :
      (url name : Text) (ids : List Text) (inner : RegistryInner)
      → IsFixed m p inner
      → Maps.get p.name (put_provider url name ids inner) ≡ some p
  unfolding put_provider
  get-put_provider url name ids inner f = elim (Option-cases (Maps.get name inner.providers)) [
    | inl absent ↦ ground (
      arith,
      f.entry,
      f.configured,
      ==_iff name p.name,
      contains_key_of_get p.name p inner.providers f.entry,
      get-insert name p.name (discovered name ids url) inner.providers,
    )
    | inr (q, there) ↦ ground (
      arith,
      f.entry,
      f.configured,
      ==_iff name p.name,
      contains_key_of_get p.name p inner.providers f.entry,
      get-insert name p.name (discovered name ids url) inner.providers,
      get-insert name p.name (with_models ids q) inner.providers,
    )
  ]

  add_group-IsFixed :
      (url name : Text) (ids : List Text) (inner : RegistryInner)
      → IsFixed m p inner
      → IsFixed m p (add_group url name ids inner)
  unfolding add_group
  add_group-IsFixed url name ids inner f =
      elim (Bool-cases (contains inner.disabled_static_providers name)) [
        | inl disabled ↦ rw disabled f
        | inr active ↦ rw active (record {
          keys = record {
            names = put_provider-Unique url name ids inner f.keys.names;
            routes = route_new-Unique name ids inner.model_to_provider f.keys.routes;
          };
          route = get-route_new name ids inner.model_to_provider m p.name f.route;
          configured = f.configured;
          entry = get-put_provider url name ids inner f;
          listed = f.listed;
        })
      ]

  add_groups-IsFixed :
      (url : Text) (groups : Snapshot) (inner : RegistryInner)
      → IsFixed m p inner
      → IsFixed m p (add_groups url groups inner)
  unfolding add_groups
  add_groups-IsFixed url [] inner f = f
  add_groups-IsFixed url ((name, ids) ∷ groups) inner f =
      add_groups-IsFixed url groups (add_group url name ids inner)
        (add_group-IsFixed url name ids inner f)

  add_manual-IsFixed : (inner : RegistryInner) → IsFixed m p inner → IsFixed m p (add_manual inner)
  unfolding add_manual
  add_manual-IsFixed inner f = record {
    keys = record {
      names = f.keys.names;
      routes =
          insert_all-Unique (manual_entries inner.model_to_provider inner.providers)
            inner.model_to_provider f.keys.routes;
    };
    route = get-add_manual inner.model_to_provider inner.providers m p.name f.route;
    configured = f.configured;
    entry = f.entry;
    listed = f.listed;
  }

  drop_invalid-IsFixed :
      (inner : RegistryInner) → IsFixed m p inner → IsFixed m p (drop_invalid inner)
  unfolding drop_invalid
  drop_invalid-IsFixed inner f =
      let valid = λ (model name : Text).
        contains (valid_models inner.providers) model && contains_key name inner.providers in
      record {
        keys = record {
          names = f.keys.names;
          routes = retain-Unique valid inner.model_to_provider f.keys.routes;
        };
        route = ground (
          arith,
          f.route,
          get-retain valid m inner.model_to_provider f.keys.routes,
          valid_models_of_get inner.providers p.name m p f.entry f.listed,
          contains_key_of_get p.name p inner.providers f.entry,
        );
        configured = f.configured;
        entry = f.entry;
        listed = f.listed;
      }

  pub update-IsFixed :
      (snapshot : Snapshot) (url : Text) (inner : RegistryInner)
      → IsFixed m p inner
      → IsFixed m p (update_from_discovery snapshot url inner)
  unfolding update_from_discovery
  update-IsFixed snapshot url inner f = drop_invalid-IsFixed _ (
      add_manual-IsFixed _
        (add_groups-IsFixed url snapshot _ (drop_stale-IsFixed snapshot inner f)))

  pub get_provider_for_model_of_fixed :
      (inner : RegistryInner) → IsFixed m p inner → get_provider_for_model m inner ≡ some p
  unfolding get_provider_for_model
  get_provider_for_model_of_fixed inner f = rw (f.route, f.entry) refl

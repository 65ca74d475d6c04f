-- ===== src/Registry/Static.antt =====
-- The routes of the configuration survive every discovery.
use aperture_router.Prelude.{
  ◌⊎◌, sym, ◌≡◌, refl, true, false, ◌&&◌, Option, none, some, List, [], ◌∷◌, if◌then◌else◌, ◌==◌,
  ==_iff, ==_self, contains, arith, Bool-cases, inl, inr,
}
use aperture_router.Maps.{insert, get-insert, insert-Unique}
use aperture_router.Text.{Text, text_eq}
use aperture_router.Config.{Provider}
use aperture_router.Registry.{
  RegistryInner, Snapshot, empty, add_configured, add_all, new, update_from_discovery,
  get_provider_for_model, route_all,
}
use aperture_router.Registry.Routes.{get-route_all, route_all-Unique}
use aperture_router.Registry.Fixed.{
  HasKeys, IsFixed, update-IsFixed, get_provider_for_model_of_fixed,
}

-- The last enabled provider of the configuration that lists the model.
abbrev pub first_found : Option Provider → Option Provider → Option Provider
first_found (some q) other = some q
first_found none other = other

abbrev pub serving : Text → List Provider → Option Provider
serving m [] = none
serving m (p ∷ ps) =
    first_found (serving m ps) (if p.enabled && contains p.models m then some p else none)

abbrev pub IsNameless : Text → List Provider → Type 0
IsNameless name [] = Unit
IsNameless name (p ∷ ps) = (p.name == name ≡ false) × IsNameless name ps

-- No two providers have one name.
abbrev pub HasOwnNames : List Provider → Type 0
HasOwnNames [] = Unit
HasOwnNames (p ∷ ps) = IsNameless p.name ps × HasOwnNames ps

pub add_configured_on :
    (p : Provider) (inner : RegistryInner)
    → p.enabled ≡ true
    → add_configured p inner ≡ record inner {
      model_to_provider = route_all p.name p.models inner.model_to_provider;
      static_providers = p.name ∷ inner.static_providers;
      providers = insert p.name p inner.providers;
    }
unfolding add_configured
add_configured_on p inner on = ground (arith, on)

pub add_configured_off :
    (p : Provider) (inner : RegistryInner)
    → p.enabled ≡ false
    → add_configured p inner
      ≡ record inner { disabled_static_providers = p.name ∷ inner.disabled_static_providers }
unfolding add_configured
add_configured_off p inner off = ground (arith, off)

pub add_configured-HasKeys :
    (p : Provider) (inner : RegistryInner) → HasKeys inner → HasKeys (add_configured p inner)
add_configured-HasKeys p inner k = elim (Bool-cases p.enabled) [
  | inr off ↦ rw (add_configured_off p inner off) (record { names = k.names; routes = k.routes })
  | inl on ↦ rw (add_configured_on p inner on) (record {
    names = insert-Unique p.name p inner.providers k.names;
    routes = route_all-Unique p.name p.models inner.model_to_provider k.routes;
  })
]

-- A provider with another name that does not list the model.
add_configured-IsFixed :
    (m : Text) (p q : Provider) (inner : RegistryInner)
    → IsFixed m p inner
    → q.name == p.name ≡ false
    → q.enabled && contains q.models m ≡ false
    → IsFixed m p (add_configured q inner)
add_configured-IsFixed m p q inner f other silent = elim (Bool-cases q.enabled) [
  | inr off ↦ rw (add_configured_off q inner off) (record {
    keys = record { names = f.keys.names; routes = f.keys.routes };
    route = f.route;
    configured = f.configured;
    entry = f.entry;
    listed = f.listed;
  })
  | inl on ↦ rw (add_configured_on q inner on) (record {
    keys = record {
      names = insert-Unique q.name q inner.providers f.keys.names;
      routes = route_all-Unique q.name q.models inner.model_to_provider f.keys.routes;
    };
    route =
        ground
          (arith, on, silent, f.route, get-route_all q.name q.models inner.model_to_provider m);
    configured = ground (arith, f.configured);
    entry = ground (
      arith,
      f.entry,
      other,
      get-insert q.name p.name q inner.providers,
      ==_iff q.name p.name,
      ==_iff p.name q.name,
    );
    listed = f.listed;
  })
]

-- A provider that lists the model, just added.
added-IsFixed :
    (m : Text) (p : Provider) (inner : RegistryInner)
    → HasKeys inner
    → p.enabled && contains p.models m ≡ true
    → IsFixed m p (add_configured p inner)
added-IsFixed m p inner k serves =
    let on : p.enabled ≡ true = ground (arith, serves) in
    let lists : contains p.models m ≡ true = ground (arith, serves) in
    rw (add_configured_on p inner on) (record {
      keys = record {
        names = insert-Unique p.name p inner.providers k.names;
        routes = route_all-Unique p.name p.models inner.model_to_provider k.routes;
      };
      route = ground (arith, lists, get-route_all p.name p.models inner.model_to_provider m);
      configured = ground (arith, ==_self p.name);
      entry = ground (arith, ==_self p.name, get-insert p.name p.name p inner.providers);
      listed = lists;
    })

-- A list that serves the model by none of its providers.
serving-none :
    (m : Text) (q : Provider) (ps : List Provider)
    → serving m (q ∷ ps) ≡ none
    → (q.enabled && contains q.models m ≡ false) × (serving m ps ≡ none)
serving-none m q ps h = go (serving m ps) h
  where
    go :
        (o : Option Provider)
        → first_found o (if q.enabled && contains q.models m then some q else none) ≡ none
        → (q.enabled && contains q.models m ≡ false) × (o ≡ none)
    go none h = (ground (arith, h), refl)
    go (some r) h = absurd (ground (arith, h))

-- The provider that serves a model is the head, with none behind it, or is one behind the head.
serving-some :
    (m : Text) (p q : Provider) (ps : List Provider)
    → serving m (q ∷ ps) ≡ some p
    → (serving m ps ≡ some p)
      ⊎ ((q ≡ p) × (q.enabled && contains q.models m ≡ true) × (serving m ps ≡ none))
serving-some m p q ps h = go (serving m ps) h
  where
    go :
        (o : Option Provider)
        → first_found o (if q.enabled && contains q.models m then some q else none) ≡ some p
        → (o ≡ some p) ⊎ ((q ≡ p) × (q.enabled && contains q.models m ≡ true) × (o ≡ none))
    go (some r) h = inl h
    go none h = inr (ground (arith, h), ground (arith, h), refl)

-- The rest of the configuration does not serve the model.
add_all-IsFixed :
    (m : Text) (p : Provider) (ps : List Provider) (inner : RegistryInner)
    → IsFixed m p inner
    → IsNameless p.name ps
    → serving m ps ≡ none
    → IsFixed m p (add_all ps inner)
unfolding add_all
add_all-IsFixed m p [] inner f u h = f
add_all-IsFixed m p (q ∷ ps) inner f (other, u) h =
    let (silent, nobody) = serving-none m q ps h in
    add_all-IsFixed m p ps (add_configured q inner)
      (add_configured-IsFixed m p q inner f other silent) u nobody

last_one :
    (m : Text) (p q : Provider) (ps : List Provider) (inner : RegistryInner)
    → q ≡ p
    → HasKeys inner
    → IsNameless q.name ps
    → q.enabled && contains q.models m ≡ true
    → serving m ps ≡ none
    → IsFixed m p (add_all ps (add_configured q inner))
last_one m p q ps inner same k u serves nobody =
    rw (sym same)
      (add_all-IsFixed m q ps (add_configured q inner) (added-IsFixed m q inner k serves) u nobody)

serving-IsFixed :
    (m : Text) (p : Provider) (ps : List Provider) (inner : RegistryInner)
    → HasKeys inner
    → HasOwnNames ps
    → serving m ps ≡ some p
    → IsFixed m p (add_all ps inner)
unfolding add_all
serving-IsFixed m p [] inner k u h = absurd (cc h)
serving-IsFixed m p (q ∷ ps) inner k (nameless, u) h = elim (serving-some m p q ps h) [
  | inl later ↦
      serving-IsFixed m p ps (add_configured q inner) (add_configured-HasKeys q inner k) u later
  | inr (same, serves, nobody) ↦ last_one m p q ps inner same k nameless serves nobody
]

-- The registry after a series of snapshots, each with the gateway's address.
unfoldable pub refresh_all : List (Snapshot × Text) → RegistryInner → RegistryInner
refresh_all [] inner = inner
refresh_all ((snapshot, aperture_url) ∷ updates) inner =
    refresh_all updates (update_from_discovery snapshot aperture_url inner)

refresh_all-IsFixed :
    (m : Text) (p : Provider) (updates : List (Snapshot × Text)) (inner : RegistryInner)
    → IsFixed m p inner
    → IsFixed m p (refresh_all updates inner)
unfolding refresh_all
refresh_all-IsFixed m p [] inner f = f
refresh_all-IsFixed m p ((snapshot, url) ∷ updates) inner f =
    refresh_all-IsFixed m p updates _ (update-IsFixed m p snapshot url inner f)

-- The providers of the configuration have different names, and the last enabled one of them that
-- lists a model is p. Then p serves the model, as the configuration gives it, when the registry
-- starts and after every series of discovery updates.
pub get_provider_for_model-refresh_all :
    (m : Text) (p : Provider) (ps : List Provider) (updates : List (Snapshot × Text))
    → HasOwnNames ps
    → serving m ps ≡ some p
    → get_provider_for_model m (refresh_all updates (new ps)) ≡ some p
unfolding new
get_provider_for_model-refresh_all m p ps updates u h = get_provider_for_model_of_fixed m p _ (
    refresh_all-IsFixed m p updates _
      (serving-IsFixed m p ps empty (record { names = tt; routes = tt }) u h))

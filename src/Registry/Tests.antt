-- ===== src/Registry/Tests.antt =====
-- The registry on concrete input.
use aperture_router.Prelude.{
  ◌≡◌, refl, Bool, true, false, none, some, List, [], ◌∷◌, contains, is_some,
}
use mathlib.Core.Option
use aperture_router.Maps
use aperture_router.Maps.{contains_key, insert, retain}
use aperture_router.Text.{Text, text_eq, same_text, utf8}
use aperture_router.Config.{Provider, openai_direct}
use aperture_router.Registry.{
  Snapshot, new, add_all, drop_stale, add_groups, add_group, put_provider, route_new, add_manual,
  insert_all, manual_entries, drop_invalid, inferred_style, update_from_discovery, get_provider,
  get_provider_for_model, get_providers_for_model, valid_models,
}
use aperture_router.Registry.Static.{refresh_all, get_provider_for_model-refresh_all}
use aperture_router.Registry.Routed.{get_provider_for_model-update}
use aperture_router.Registry.Disabled.{get_provider-refresh_all}
use aperture_router.Registry.Choice.{AreCandidates, get_providers_for_model-AreCandidates}

abbrev provider : Text → List Text → Bool → Provider
provider name models enabled = record {
  name = name;
  base_url = utf8 "https://a.b/";
  api_key = none;
  endpoint_style = openai_direct;
  models = models;
  enabled = enabled;
}

abbrev claude : Text
claude = utf8 "claude"

abbrev glm : Text
glm = utf8 "glm"

abbrev own : Provider
own = provider (utf8 "own") (claude ∷ []) true

abbrev providers : List Provider
providers = own ∷ provider (utf8 "off") (glm ∷ []) false ∷ []

-- The gateway lists the model of the configuration elsewhere, and a group with the disabled name.
abbrev snapshot : Snapshot
snapshot = (utf8 "pool", claude ∷ glm ∷ []) ∷ (utf8 "off", glm ∷ []) ∷ []

abbrev gateway : Text
gateway = utf8 "http://gw"

get_provider_for_model-refresh_all_example :
    get_provider_for_model claude (refresh_all ((snapshot, gateway) ∷ []) (new providers))
    ≡ some own
unfolding same_text
get_provider_for_model-refresh_all_example =
    get_provider_for_model-refresh_all claude own providers ((snapshot, gateway) ∷ [])
      ((refl, tt), (tt, tt)) refl

get_provider-refresh_all_example :
    get_provider (utf8 "off") (refresh_all ((snapshot, gateway) ∷ []) (new providers)) ≡ none
unfolding same_text
get_provider-refresh_all_example =
    get_provider-refresh_all (utf8 "off") providers ((snapshot, gateway) ∷ []) refl refl

get_provider_for_model-update_example :
    let inner = update_from_discovery snapshot gateway (refresh_all [] (new providers)) in
    is_some (get_provider_for_model glm inner) ≡ contains (valid_models inner.providers) glm
get_provider_for_model-update_example =
    get_provider_for_model-update glm providers [] snapshot gateway

get_providers_for_model-AreCandidates_example :
    let inner = update_from_discovery snapshot gateway (new providers) in
    AreCandidates claude inner (get_providers_for_model claude inner)
get_providers_for_model-AreCandidates_example =
    get_providers_for_model-AreCandidates claude
      (update_from_discovery snapshot gateway (new providers))

-- A discovered provider keeps the route of a model that it no longer lists, if another one does.
abbrev moved : Snapshot
moved = (utf8 "a", []) ∷ (utf8 "b", glm ∷ []) ∷ []

stale_route :
    Option.map
      (λ p. p.models)
      (get_provider_for_model glm (
        update_from_discovery moved gateway
          (update_from_discovery ((utf8 "a", glm ∷ []) ∷ []) gateway (new []))))
    ≡ some []
unfolding get_provider_for_model update_from_discovery new add_all drop_stale add_groups add_group
    put_provider route_new add_manual insert_all manual_entries drop_invalid valid_models same_text
    inferred_style Maps.get contains_key insert retain
stale_route = refl

-- ===== src/Registry.antt =====
-- src/provider/registry.rs: which provider serves which model. The methods hold the lock of
-- `RegistryInner` from their first access to their last, so each is one step. A `HashSet` is a
-- list.
pub mod Routes
pub mod Fixed
pub mod Static
pub mod Links
pub mod Known
pub mod Routed
pub mod Disabled
pub mod Choice
mod Tests
use aperture_router.Prelude.{
  ℕ, ◌+◌, ◌*◌, Bool, true, false, not, ◌&&◌, ◌||◌, Option, none, some, List, [], ◌∷◌, ◌++◌, any,
  keep, map, if◌then◌else◌, ◌==◌, ltb, length, contains, is_some, and_then, unwrap_or,
}
use aperture_router.Maps
use aperture_router.Maps.{Map, contains_key, insert, retain}
use aperture_router.Text.{Text, text_eq, utf8, contains_char, strip_prefix, trim_end_matches}
use aperture_router.Config.{Provider, EndpointStyle, openai_v1, openai_direct, anthropic}

pub record RegistryInner : Type 0 where
  pub providers : Map Text Provider
  pub model_to_provider : Map Text Text
  pub static_providers : List Text
  pub disabled_static_providers : List Text

abbrev pub empty : RegistryInner
empty = record {
  providers = [];
  model_to_provider = [];
  static_providers = [];
  disabled_static_providers = [];
}

-- `for model in &provider.models { model_map.insert(…) }`
unfoldable pub route_all : Text → List Text → Map Text Text → Map Text Text
route_all name [] routes = routes
route_all name (model ∷ models) routes = route_all name models (insert model name routes)

unfoldable pub add_configured : Provider → RegistryInner → RegistryInner
add_configured provider inner =
    if provider.enabled
    then record inner {
      model_to_provider = route_all provider.name provider.models inner.model_to_provider;
      static_providers = provider.name ∷ inner.static_providers;
      providers = insert provider.name provider inner.providers;
    }
    else record inner {
      disabled_static_providers = provider.name ∷ inner.disabled_static_providers;
    }

unfoldable pub add_all : List Provider → RegistryInner → RegistryInner
add_all [] inner = inner
add_all (provider ∷ providers) inner = add_all providers (add_configured provider inner)

unfoldable pub new : List Provider → RegistryInner
new providers = add_all providers empty

-- A snapshot of the discovery: the models of each provider, in the order of the map's iteration.
abbrev pub Snapshot : Type 0
Snapshot = Map Text (List Text)

abbrev pub is_kept : Snapshot → List Text → Text → Bool
is_kept snapshot static_providers name =
    contains_key name snapshot || contains static_providers name

unfoldable pub drop_stale : Snapshot → RegistryInner → RegistryInner
drop_stale snapshot inner = record inner {
  providers = retain (λ name _. is_kept snapshot inner.static_providers name) inner.providers;
  model_to_provider =
      retain (λ _ name. is_kept snapshot inner.static_providers name) inner.model_to_provider;
}

-- More than half of the identifiers have a slash.
unfoldable pub inferred_style : List Text → EndpointStyle
inferred_style model_ids =
    if ltb (length model_ids) (length (keep (contains_char 47) model_ids) * 2)
    then openai_v1
    else openai_direct

abbrev pub discovered : Text → List Text → Text → Provider
discovered provider_id model_ids aperture_url = record {
  name = provider_id;
  base_url = aperture_url;
  api_key = none;
  endpoint_style = inferred_style model_ids;
  models = model_ids;
  enabled = true;
}

abbrev pub with_models : List Text → Provider → Provider
with_models model_ids provider = record provider { models = model_ids }

abbrev pub replace_models :
    Text → List Text → Option Provider → Map Text Provider → Map Text Provider
replace_models provider_id model_ids none providers = providers
replace_models provider_id model_ids (some p) providers =
    insert provider_id (with_models model_ids p) providers

-- The provider of a group: new, known from an earlier snapshot, or the configuration's.
unfoldable pub put_provider : Text → Text → List Text → RegistryInner → Map Text Provider
put_provider aperture_url provider_id model_ids inner =
    if not (contains_key provider_id inner.providers)
    then insert provider_id (discovered provider_id model_ids aperture_url) inner.providers
    else if not (contains inner.static_providers provider_id)
    then replace_models provider_id model_ids (Maps.get provider_id inner.providers) inner.providers
    else inner.providers

-- A model that has a route keeps it.
unfoldable pub route_new : Text → List Text → Map Text Text → Map Text Text
route_new provider_id [] routes = routes
route_new provider_id (model_id ∷ model_ids) routes =
    route_new provider_id model_ids
      (if is_some (Maps.get model_id routes) then routes else insert model_id provider_id routes)

unfoldable pub add_group : Text → Text → List Text → RegistryInner → RegistryInner
add_group aperture_url provider_id model_ids inner =
    if contains inner.disabled_static_providers provider_id then inner else record inner {
      providers = put_provider aperture_url provider_id model_ids inner;
      model_to_provider = route_new provider_id model_ids inner.model_to_provider;
    }

unfoldable pub add_groups : Text → Snapshot → RegistryInner → RegistryInner
add_groups aperture_url [] inner = inner
add_groups aperture_url ((provider_id, model_ids) ∷ groups) inner =
    add_groups aperture_url groups (add_group aperture_url provider_id model_ids inner)

-- The models of a provider that have no route, each with the provider's name.
abbrev pub unrouted : Map Text Text → Text → List Text → List (Text × Text)
unrouted routes provider_id [] = []
unrouted routes provider_id (m ∷ models) =
    let rest = unrouted routes provider_id models in
    if contains_key m routes then rest else (m, provider_id) ∷ rest

unfoldable pub manual_entries : Map Text Text → Map Text Provider → List (Text × Text)
manual_entries routes [] = []
manual_entries routes ((provider_id, provider) ∷ providers) =
    unrouted routes provider_id provider.models ++ manual_entries routes providers

unfoldable pub insert_all : List (Text × Text) → Map Text Text → Map Text Text
insert_all [] routes = routes
insert_all ((model_id, provider_id) ∷ entries) routes =
    insert_all entries (insert model_id provider_id routes)

unfoldable pub add_manual : RegistryInner → RegistryInner
add_manual inner = record inner {
  model_to_provider =
      insert_all (manual_entries inner.model_to_provider inner.providers) inner.model_to_provider;
}

-- Every model that a provider lists.
unfoldable pub valid_models : Map Text Provider → List Text
valid_models [] = []
valid_models ((name, provider) ∷ providers) = provider.models ++ valid_models providers

unfoldable pub drop_invalid : RegistryInner → RegistryInner
drop_invalid inner = record inner {
  model_to_provider =
      retain
        (λ model name.
          contains (valid_models inner.providers) model && contains_key name inner.providers)
        inner.model_to_provider;
}

unfoldable pub update_from_discovery : Snapshot → Text → RegistryInner → RegistryInner
update_from_discovery snapshot aperture_url inner =
    drop_invalid (add_manual (add_groups aperture_url snapshot (drop_stale snapshot inner)))

unfoldable pub get_provider : Text → RegistryInner → Option Provider
get_provider name inner = Maps.get name inner.providers

unfoldable pub get_provider_for_model : Text → RegistryInner → Option Provider
get_provider_for_model model inner =
    and_then (Maps.get model inner.model_to_provider) (λ name. Maps.get name inner.providers)

abbrev pub if_enabled : Option Provider → List Provider
if_enabled none = []
if_enabled (some p) = if p.enabled then p ∷ [] else []

-- The loop over the providers, behind what was found before.
unfoldable pub add_serving : Text → List Provider → Map Text Provider → List Provider
add_serving model result [] = result
add_serving model result ((name, p) ∷ providers) =
    add_serving model
      (if p.enabled && contains p.models model && not (any (λ r. r.name == p.name) result)
        then result ++ p ∷ []
        else result)
      providers

unfoldable pub get_providers_for_model : Text → RegistryInner → List Provider
get_providers_for_model model inner =
    add_serving model (if_enabled (get_provider_for_model model inner)) inner.providers

-- `format!("{}/{}", base, endpoint)`
abbrev pub at_path : Text → Text → Text
at_path base endpoint = base ++ 47 ∷ endpoint

unfoldable pub build_endpoint_url : Provider → Text → Text
build_endpoint_url provider endpoint =
    let base = trim_end_matches 47 provider.base_url in
    elim provider.endpoint_style [
      | openai_v1 ↦ at_path base endpoint
      | openai_direct ↦ at_path base (unwrap_or (strip_prefix (utf8 "v1/") endpoint) endpoint)
      | anthropic ↦ at_path base (utf8 "v1/messages")
    ]

pub data EndpointType : Type 0 where
  chat_completions messages : EndpointType

unfoldable pub get_default_endpoint : EndpointStyle → EndpointType → Text
get_default_endpoint openai_v1 chat_completions = utf8 "v1/chat/completions"
get_default_endpoint openai_v1 messages = utf8 "v1/messages"
get_default_endpoint openai_direct chat_completions = utf8 "chat/completions"
get_default_endpoint openai_direct messages = utf8 "v1/messages"
get_default_endpoint anthropic endpoint_type = utf8 "v1/messages"

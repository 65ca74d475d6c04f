-- ===== src/Discovery.antt =====
-- src/discovery/models.rs: the models that the gateway reports. `models`, `models_by_provider`,
-- `providers` and `last_refresh` have a lock each; a refresh is one step here. Messages and logs
-- are not modelled.
pub mod Consistent
mod Tests
use aperture_router.Prelude.{
  ℕ, zero, suc, ◌+◌, ◌*◌, ◌^◌, Bool, true, false, not, Option, none, some, List, [], ◌∷◌, ◌++◌, all,
  map, if◌then◌else◌, ltb, length, is_empty, contains, and_then, unwrap_or, ◌==◌, nat_eq,
}
use aperture_router.Maps
use aperture_router.Maps.{Map, contains_key, insert}
use aperture_router.Net.{Result, ok, err, is_ok, ◌>>◌}
use aperture_router.Text.{Text, text_eq, utf8, contains_text}
use aperture_router.HttpClient.{read_body_capped}
use aperture_router.Upstream.Utf8.{StreamError}
use aperture_router.Upstream.Hosts.{Url, is_web}
use aperture_router.Upstream.Forward.{is_success}
use aperture_router.Validation.{is_name_char}
use aperture_router.Routes.{is_server_error}

pub record Model : Type 0 where
  pub id : Text
  pub kind : Text
  pub created : ℕ
  pub owned_by : Text
  pub provider_id : Option Text

pub record ProviderInfo : Type 0 where
  pub id : Option Text

pub record ModelMetadata : Type 0 where
  pub provider : Option ProviderInfo

-- `kind` is the field `object`.
pub record ApiModel : Type 0 where
  pub id : Text
  pub kind : Option Text
  pub created : Option ℕ
  pub owned_by : Option Text
  pub metadata : Option ModelMetadata

pub record ModelDiscovery : Type 0 where
  pub models : Map Text Model
  pub models_by_provider : Map Text (List Text)
  pub providers : List Text
  pub last_refresh : ℕ

abbrev pub new : ModelDiscovery
new = record { models = []; models_by_provider = []; providers = []; last_refresh = 0 }

pub data IdError : Type 0 where
  id_empty id_long id_dots id_chars : IdError

abbrev pub skip_if : Bool → IdError → Result IdError Unit
skip_if true e = err e
skip_if false e = ok tt

unfoldable pub validate_discovered_id : Text → Result IdError Unit
validate_discovered_id id =
    skip_if (is_empty id) id_empty
    >> skip_if (ltb 256 (length id)) id_long
    >> skip_if (contains_text (utf8 "..") id) id_dots
    >> skip_if (not (all is_name_char id)) id_chars

abbrev pub default_id : Text
default_id = utf8 "default"

unfoldable pub raw_provider_id : ApiModel → Text
raw_provider_id api_model =
    unwrap_or (and_then api_model.metadata (λ metadata. and_then metadata.provider (λ p. p.id)))
      default_id

unfoldable pub provider_id_of : Text → Text
provider_id_of raw_id = if is_ok (validate_discovered_id raw_id) then raw_id else default_id

abbrev pub model_of : ApiModel → Text → Model
model_of api_model provider_id = record {
  id = api_model.id;
  kind = unwrap_or api_model.kind (utf8 "model");
  created = unwrap_or api_model.created 0;
  owned_by = unwrap_or api_model.owned_by provider_id;
  provider_id = some provider_id;
}

-- `entry(provider_id).or_default().push(id)`
unfoldable pub push_to : Text → Text → Map Text (List Text) → Map Text (List Text)
push_to provider_id id groups =
    insert provider_id (unwrap_or (Maps.get provider_id groups) [] ++ id ∷ []) groups

abbrev insert_once : Text → List Text → List Text
insert_once name names = if contains names name then names else name ∷ names

-- One round of the loop over the reported models.
unfoldable pub add_model : ApiModel → ModelDiscovery → ModelDiscovery
add_model api_model s =
    let provider_id = provider_id_of (raw_provider_id api_model) in
    if is_ok (validate_discovered_id api_model.id)
    then record s {
      models = insert api_model.id (model_of api_model provider_id) s.models;
      models_by_provider = push_to provider_id api_model.id s.models_by_provider;
      providers = insert_once provider_id s.providers;
    }
    else s

unfoldable pub add_models : List ApiModel → ModelDiscovery → ModelDiscovery
add_models [] s = s
add_models (api_model ∷ api_models) s = add_models api_models (add_model api_model s)

pub data DiscoveryError : Type 0 where
  bad_base_url bad_scheme bad_join : DiscoveryError
  unreachable refused body_large body_unread undecoded many_models no_attempt : DiscoveryError

pub record DiscoverySnapshot : Type 0 where
  pub models : List Model
  pub providers : List Text
  pub models_by_provider : Map Text (List Text)
  pub refreshed_at : ℕ

abbrev values : Map Text Model → List Model
values m = map (λ b. b.1) m

unfoldable pub get_snapshot : ModelDiscovery → DiscoverySnapshot
get_snapshot s = record {
  models = values s.models;
  providers = s.providers;
  models_by_provider = s.models_by_provider;
  refreshed_at = s.last_refresh;
}

abbrev pub max_models_per_snapshot : ℕ
max_models_per_snapshot = 10000

-- A method's result, and the state after it.
abbrev pub Refreshed : Type 0
Refreshed = Result DiscoveryError DiscoverySnapshot × ModelDiscovery

unfoldable pub process_models_response : ℕ → List ApiModel → ModelDiscovery → Refreshed
process_models_response now api_models s =
    if ltb max_models_per_snapshot (length api_models)
    then (err many_models, s)
    else (let next = record (add_models api_models new) { last_refresh = now } in
        (ok (get_snapshot next), next))

unfoldable pub get_models_for_provider : Text → ModelDiscovery → List Text
get_models_for_provider provider_id s = unwrap_or (Maps.get provider_id s.models_by_provider) []

unfoldable pub is_valid_model : Text → ModelDiscovery → Bool
is_valid_model model_id s = contains_key model_id s.models

unfoldable pub get_model : Text → ModelDiscovery → Option Model
get_model model_id s = Maps.get model_id s.models

-- What the gateway answers to an attempt.
pub record Answer : Type 0 where
  pub status : ℕ
  pub content_length : Option ℕ
  pub chunks : List (Result StreamError Text)

abbrev pub max_models_body_bytes : ℕ
max_models_body_bytes = 16 * 1024 * 1024

-- An attempt is repeated, ends the call with an error, or gives the models.
pub data Tried : Type 0 where
  again : DiscoveryError → Tried
  stop : DiscoveryError → Tried
  decoded : List ApiModel → Tried

abbrev is_announced_large : Option ℕ → Bool
is_announced_large none = false
is_announced_large (some len) = ltb max_models_body_bytes len

-- `from_slice` is serde_json's, `respond` the answer to each attempt, and `join_url` is
-- `Url::join`.
module _ (from_slice : Text → Option (List ApiModel)) (parse_url : Text → Option Url)
    (join_url : Url → Text → Option Url) (respond : Url → ℕ → Result StreamError Answer) where
  abbrev tried_decoded : Option (List ApiModel) → Tried
  tried_decoded none = again undecoded
  tried_decoded (some api_models) = decoded api_models

  abbrev tried_body : {E : Type 0} → Result E Text → Tried
  tried_body (err e) = again body_unread
  tried_body (ok body) = tried_decoded (from_slice body)

  unfoldable pub try_answer : Result StreamError Answer → Tried
  try_answer (err e) = again unreachable
  try_answer (ok answer) =
      if not (is_success answer.status)
      then (if is_server_error answer.status then again refused else stop refused)
      else if is_announced_large answer.content_length
      then again body_large
      else tried_body (read_body_capped max_models_body_bytes answer.chunks)

  -- The outcome of the attempts, with the number of requests and the seconds slept between them.
  pub record Fetch : Type 0 where
    pub outcome : Result DiscoveryError (List ApiModel)
    pub requests : ℕ
    pub slept : ℕ

  abbrev pub fetch_step : ℕ → Tried → (DiscoveryError → Fetch) → Fetch
  fetch_step attempt (again e) rest = rest e
  fetch_step attempt (stop e) rest = record { outcome = err e; requests = suc attempt; slept = 0 }
  fetch_step attempt (decoded api_models) rest = record {
    outcome = ok api_models;
    requests = suc attempt;
    slept = 0;
  }

  abbrev pub delayed : ℕ → Fetch → Fetch
  delayed attempt fetch = record fetch {
    slept = (if attempt == 0 then 0 else 2 ^ attempt) + fetch.slept;
  }

  unfoldable pub fetch_loop : Url → DiscoveryError → ℕ → ℕ → Fetch
  fetch_loop url last_error zero attempt = record {
    outcome = err last_error;
    requests = attempt;
    slept = 0;
  }
  fetch_loop url last_error (suc left) attempt = delayed attempt (
      fetch_step attempt (try_answer (respond url attempt))
        (λ e. fetch_loop url e left (suc attempt)))

  abbrev pub max_retries : ℕ
  max_retries = 3

  abbrev pub store : ℕ → ModelDiscovery → Result DiscoveryError (List ApiModel) → Refreshed
  store now s (err e) = (err e, s)
  store now s (ok api_models) = process_models_response now api_models s

  abbrev pub fetch_from : ℕ → ModelDiscovery → Option Url → Refreshed
  fetch_from now s none = (err bad_join, s)
  fetch_from now s (some url) = store now s (fetch_loop url no_attempt max_retries 0).outcome

  abbrev pub fetch_below : ℕ → ModelDiscovery → Option Url → Refreshed
  fetch_below now s none = (err bad_base_url, s)
  fetch_below now s (some base_url) =
      if not (is_web base_url.scheme)
      then (err bad_scheme, s)
      else fetch_from now s (join_url base_url (utf8 "v1/models"))

  unfoldable pub fetch_models : Text → ℕ → ModelDiscovery → Refreshed
  fetch_models base_url now s = fetch_below now s (parse_url base_url)

-- ===== src/Discovery/Consistent.antt =====
-- What the state of the discovery holds after every refresh.
use aperture_router.Prelude.{
  unwrap_or, ltb, ℕ, ◌≤◌, ◌≡◌, ◌↔◌, refl, Bool, true, false, ◌||◌, Option, none, some, List, [],
  ◌∷◌, ◌++◌, any, All, all, arith, length, is_empty, contains, ◌==◌, ==_iff, Bool-cases, inl, inr,
}
use aperture_router.Maps
use aperture_router.Maps.{Map, contains_key, insert, contains_key-insert}
use aperture_router.Net.{Result, ok, err, is_ok}
use aperture_router.Text.{Text, text_eq, utf8, contains_text, starts_with, strip_prefix}
use aperture_router.Upstream.Utf8.{StreamError}
use aperture_router.Upstream.Hosts.{Url}
use aperture_router.Validation.{is_name_char}
use aperture_router.Registry.Routes.{contains-append}
use aperture_router.Discovery.{
  is_web, store, DiscoveryError, fetch_from, fetch_below, max_models_per_snapshot, ApiModel,
  ModelDiscovery, new, validate_discovered_id, default_id, raw_provider_id, provider_id_of, push_to,
  add_model, add_models, process_models_response, Answer, fetch_models, model_of,
}

-- One to 256 bytes of the allowed characters, without two dots in a row.
abbrev pub IsId : Text → Type 0
IsId id =
    (is_empty id ≡ false)
    × (length id ≤ 256)
    × (contains_text (utf8 "..") id ≡ false)
    × (all is_name_char id ≡ true)

validate_discovered_id_iff : (id : Text) → (is_ok (validate_discovered_id id) ≡ true) ↔ IsId id
unfolding validate_discovered_id
validate_discovered_id_iff id = ground arith

default-IsId : IsId default_id
unfolding contains_text starts_with strip_prefix
default-IsId = (refl, omega arith, refl, refl)

-- Some provider of the groups lists the model.
abbrev pub lists : Text → Map Text (List Text) → Bool
lists id groups = any (λ b. contains b.1 id) groups

abbrev pub HasIds : {V : Type 0} → Map Text V → Type 0
HasIds m = All (λ b. IsId b.0) m

-- Every model and provider has a valid identifier, and a model is known exactly if a provider lists
-- it.
pub record IsConsistent (s : ModelDiscovery) : Type 0 where
  pub models : HasIds s.models
  pub providers : HasIds s.models_by_provider
  pub listed : (id : Text) → contains_key id s.models ≡ lists id s.models_by_provider

insert-HasIds :
    {V : Type 0} (k : Text) (v : V) (m : Map Text V) → IsId k → HasIds m → HasIds (insert k v m)
unfolding insert
insert-HasIds k v [] p a = (p, tt)
insert-HasIds k v ((j, w) ∷ m) p (q, a) = elim (Bool-cases (j == k)) [
  | inl same ↦ rw same (p, a)
  | inr other ↦ rw other (q, insert-HasIds k v m p a)
]

lists-insert :
    (provider k id : Text) (v : List Text) (groups : Map Text (List Text))
    → v ≡ unwrap_or (Maps.get provider groups) []
    → lists id (insert provider (v ++ k ∷ []) groups) ≡ lists id groups || (k == id)
unfolding insert Maps.get
lists-insert provider k id v [] h =
    ground (arith, h, contains-append v (k ∷ []) id, ==_iff k id, ==_iff id k)
lists-insert provider k id v ((j, w) ∷ groups) h = elim (Bool-cases (j == provider)) [
  | inl same ↦ ground (arith, same, h, contains-append v (k ∷ []) id, ==_iff k id, ==_iff id k)
  | inr other ↦
      ground (arith, other, lists-insert provider k id v groups (ground (arith, other, h)))
]

lists-push_to :
    (provider k id : Text) (groups : Map Text (List Text))
    → lists id (push_to provider k groups) ≡ lists id groups || (k == id)
unfolding push_to
lists-push_to provider k id groups = lists-insert provider k id _ groups refl

push_to-HasIds :
    (provider k : Text) (groups : Map Text (List Text))
    → IsId provider
    → HasIds groups
    → HasIds (push_to provider k groups)
unfolding push_to
push_to-HasIds provider k groups p a = insert-HasIds provider _ groups p a

provider_id_of-IsId : (raw_id : Text) → IsId (provider_id_of raw_id)
unfolding provider_id_of
provider_id_of-IsId raw_id = elim (Bool-cases (is_ok (validate_discovered_id raw_id))) [
  | inl valid ↦ rw valid ((validate_discovered_id_iff raw_id).0 valid)
  | inr invalid ↦ rw invalid default-IsId
]

add_model-IsConsistent :
    (api_model : ApiModel) (s : ModelDiscovery)
    → IsConsistent s
    → IsConsistent (add_model api_model s)
unfolding add_model
add_model-IsConsistent api_model s c =
    let provider = provider_id_of (raw_provider_id api_model) in
    elim (Bool-cases (is_ok (validate_discovered_id api_model.id))) [
      | inr invalid ↦ rw invalid c
      | inl valid ↦ rw valid (record {
        models =
            insert-HasIds api_model.id (model_of api_model provider) s.models
              ((validate_discovered_id_iff api_model.id).0 valid) c.models;
        providers =
            push_to-HasIds provider api_model.id s.models_by_provider
              (provider_id_of-IsId (raw_provider_id api_model)) c.providers;
        listed = λ id. ground (
          arith,
          c.listed id,
          contains_key-insert api_model.id id (model_of api_model provider) s.models,
          lists-push_to provider api_model.id id s.models_by_provider,
        );
      })
    ]

add_models-IsConsistent :
    (api_models : List ApiModel) (s : ModelDiscovery)
    → IsConsistent s
    → IsConsistent (add_models api_models s)
unfolding add_models
add_models-IsConsistent [] s c = c
add_models-IsConsistent (api_model ∷ api_models) s c =
    add_models-IsConsistent api_models (add_model api_model s)
      (add_model-IsConsistent api_model s c)

pub new-IsConsistent : IsConsistent new
unfolding contains_key
new-IsConsistent = record { models = tt; providers = tt; listed = λ id. refl }

-- A call leaves the state as it was, or replaces it.
process-IsConsistent :
    (now : ℕ) (api_models : List ApiModel) (s : ModelDiscovery)
    → IsConsistent s
    → IsConsistent (process_models_response now api_models s).1
unfolding process_models_response
process-IsConsistent now api_models s c =
    elim (Bool-cases (ltb max_models_per_snapshot (length api_models))) [
      | inl large ↦ rw large c
      | inr fits ↦
          let next = add_models-IsConsistent api_models new new-IsConsistent in
          rw fits
            (record { models = next.models; providers = next.providers; listed = next.listed })
    ]

module _ (from_slice : Text → Option (List ApiModel)) (parse_url : Text → Option Url)
    (join_url : Url → Text → Option Url) (respond : Url → ℕ → Result StreamError Answer) where
  store-IsConsistent :
      (now : ℕ) (s : ModelDiscovery) (r : Result DiscoveryError (List ApiModel))
      → IsConsistent s
      → IsConsistent (store from_slice parse_url join_url respond now s r).1
  store-IsConsistent now s (err e) c = c
  store-IsConsistent now s (ok api_models) c = process-IsConsistent now api_models s c

  fetch_from-IsConsistent :
      (now : ℕ) (s : ModelDiscovery) (url : Option Url)
      → IsConsistent s
      → IsConsistent (fetch_from from_slice parse_url join_url respond now s url).1
  fetch_from-IsConsistent now s none c = c
  fetch_from-IsConsistent now s (some url) c = store-IsConsistent now s _ c

  fetch_below-IsConsistent :
      (now : ℕ) (s : ModelDiscovery) (url : Option Url)
      → IsConsistent s
      → IsConsistent (fetch_below from_slice parse_url join_url respond now s url).1
  fetch_below-IsConsistent now s none c = c
  fetch_below-IsConsistent now s (some url) c = elim (Bool-cases (is_web url.scheme)) [
    | inr other ↦ rw other c
    | inl web ↦ rw web (fetch_from-IsConsistent now s _ c)
  ]

-- One call: the clock, and what the gateway answers to its attempts.
abbrev pub Call : Type 0
Call = ℕ × (Url → ℕ → Result StreamError Answer)

module _ (from_slice : Text → Option (List ApiModel)) (parse_url : Text → Option Url)
    (join_url : Url → Text → Option Url) (base_url : Text) where
  unfoldable pub fetch_all : List Call → ModelDiscovery → ModelDiscovery
  fetch_all [] s = s
  fetch_all ((now, respond) ∷ calls) s =
      fetch_all calls (fetch_models from_slice parse_url join_url respond base_url now s).1

  fetch_all-IsConsistent :
      (calls : List Call) (s : ModelDiscovery) → IsConsistent s → IsConsistent (fetch_all calls s)
  unfolding fetch_all fetch_models
  fetch_all-IsConsistent [] s c = c
  fetch_all-IsConsistent ((now, respond) ∷ calls) s c =
      fetch_all-IsConsistent calls _ (
        fetch_below-IsConsistent from_slice parse_url join_url respond now s (parse_url base_url) c)

  -- After every series of refreshes, whatever the gateway answers, each model and each provider of
  -- the discovery has an identifier of 1 to 256 allowed bytes, and a model is known exactly if some
  -- provider lists it.
  pub fetch_all-new-IsConsistent : (calls : List Call) → IsConsistent (fetch_all calls new)
  fetch_all-new-IsConsistent calls = fetch_all-IsConsistent calls new new-IsConsistent

-- ===== src/Conversion/Fields.antt =====
-- The fields of the OpenAI request, and the content of the Anthropic response.
use aperture_router.Prelude.{
  ◌≡◌, refl, ◌∙◌, ap, arith, String, Bool, true, false, Option, none, some, List, [], ◌∷◌,
  if◌then◌else◌, ◌==◌, ==_iff, string_eq, contains,
}
use aperture_router.Json
use aperture_router.Json.{
  array_of, Value, Fields, object, set_key, remove_key, insert_field, remove_field, lookup, json,
}
use aperture_router.Conversion.Content.{get_or_null}
use aperture_router.Conversion.Request.{
  set_if, set_all, remove_all, optional_fields, anthropic_request_to_openai, messages_of,
}

abbrev IsObject : Value → Type 0
IsObject v = (fs : Fields) × (v ≡ object fs)

lookup-insert_field :
    (j k : String) (v : Value) (fs : Fields)
    → lookup j (insert_field k v fs) ≡ (if k == j then some v else lookup j fs)
lookup-insert_field j k v Fields.end = refl
lookup-insert_field j k v (Fields.field i w fs) =
    ground (arith, ==_iff k j, ==_iff i k, ==_iff i j, lookup-insert_field j k v fs)

lookup-remove_field :
    (j k : String) (fs : Fields)
    → lookup j (remove_field k fs) ≡ (if k == j then none else lookup j fs)
lookup-remove_field j k Fields.end = ground arith
lookup-remove_field j k (Fields.field i w fs) =
    ground (arith, ==_iff k j, ==_iff i k, ==_iff i j, lookup-remove_field j k fs)

set_if-IsObject : (k : String) (w : Option Value) (v : Value) → IsObject v → IsObject (set_if k w v)
unfolding set_if
set_if-IsObject k none v o = o
set_if-IsObject k (some w) v (fs, e) = (insert_field k w fs, rw e refl)

abbrev or_else : Option Value → Option Value → Option Value
or_else none d = d
or_else (some v) d = some v

get-set_if :
    (j k : String) (w : Option Value) (v : Value)
    → IsObject v
    → Json.get j (set_if k w v) ≡ (if k == j then or_else w (Json.get j v) else Json.get j v)
unfolding set_if
get-set_if j k none v o = ground arith
get-set_if j k (some w) v (fs, e) = rw e (lookup-insert_field j k w fs)

get-remove_key :
    (j k : String) (v : Value)
    → Json.get j (remove_key k v) ≡ (if k == j then none else Json.get j v)
get-remove_key j k (object fs) = lookup-remove_field j k fs
get-remove_key j k Json.null = ground arith
get-remove_key j k (Json.bool b) = ground arith
get-remove_key j k (Json.number n) = ground arith
get-remove_key j k (Json.string s) = ground arith
get-remove_key j k (Json.array vs) = ground arith

or_else_assoc : (a b c : Option Value) → or_else (or_else a b) c ≡ or_else a (or_else b c)
or_else_assoc none b c = refl
or_else_assoc (some a) b c = refl

or_else-none : (a : Option Value) → or_else a none ≡ a
or_else-none none = refl
or_else-none (some a) = refl

-- What the last of the settings of a key writes, if any writes.
abbrev setting : String → List (String × Option Value) → Option Value
setting j [] = none
setting j ((k, w) ∷ kws) = or_else (setting j kws) (if k == j then w else none)

get-set_all :
    (j : String) (kws : List (String × Option Value)) (v : Value)
    → IsObject v
    → Json.get j (set_all kws v) ≡ or_else (setting j kws) (Json.get j v)
unfolding set_all
get-set_all j [] v o = refl
get-set_all j ((k, w) ∷ kws) v o =
    rw
      (
        get-set_all j kws (set_if k w v) (set_if-IsObject k w v o),
        get-set_if j k w v o,
        or_else_assoc (setting j kws) (if k == j then w else none) (Json.get j v),
      )
      (ap (or_else (setting j kws)) (one_setting (k == j)))
  where
    one_setting :
        (b : Bool)
        → (if b then or_else w (Json.get j v) else Json.get j v)
          ≡ or_else (if b then w else none) (Json.get j v)
    one_setting true = refl
    one_setting false = refl

get-remove_all :
    (j : String) (ks : List String) (v : Value)
    → Json.get j (remove_all ks v) ≡ (if contains ks j then none else Json.get j v)
unfolding remove_all
get-remove_all j [] v = refl
get-remove_all j (k ∷ ks) v =
    ground (arith, get-remove_all j ks (remove_key k v), get-remove_key j k v)

module _ (to_string : Value → String) (anthropic : Value) where
  abbrev request : Value
  request = anthropic_request_to_openai to_string anthropic

  -- The fields that have no OpenAI form.
  abbrev pub removed : List String
  removed = "thinking" ∷ "top_k" ∷ "metadata" ∷ "system" ∷ "stop_sequences" ∷ "cache_control" ∷ []

  get-request :
      (j : String)
      → contains removed j ≡ false
      → Json.get j request
        ≡ or_else (setting j (optional_fields anthropic)) (
            Json.get j (
              json (
                ("model", get_or_null "model" anthropic)
                ∷ ("messages", array_of (messages_of to_string anthropic))
                ∷ [])))
  unfolding anthropic_request_to_openai
  get-request j h =
      get-remove_all j removed _ ∙ rw h (get-set_all j (optional_fields anthropic) _ (_, refl))

  removed-request : (j : String) → contains removed j ≡ true → Json.get j request ≡ none
  unfolding anthropic_request_to_openai
  removed-request j h = get-remove_all j removed _ ∙ rw h refl

  pub messages-request :
      Json.get "messages" request ≡ some (array_of (messages_of to_string anthropic))
  messages-request = get-request "messages" refl

  -- The request's token limit, temperature, stream flag, `top_p` and stop sequences are the
  -- Anthropic request's or as absent as there, its model is the Anthropic one or null, and none of
  -- the fields `thinking`, `top_k`, `metadata`, `system`, `stop_sequences` and `cache_control` is
  -- in it.
  pub request_fields :
      (Json.get "max_completion_tokens" request ≡ Json.get "max_tokens" anthropic)
      × (Json.get "temperature" request ≡ Json.get "temperature" anthropic)
      × (Json.get "stream" request ≡ Json.get "stream" anthropic)
      × (Json.get "top_p" request ≡ Json.get "top_p" anthropic)
      × (Json.get "stop" request ≡ Json.get "stop_sequences" anthropic)
      × (Json.get "model" request ≡ some (get_or_null "model" anthropic))
      × ((j : String) → contains removed j ≡ true → Json.get j request ≡ none)
  request_fields = (
    get-request "max_completion_tokens" refl ∙ ground arith,
    get-request "temperature" refl ∙ ground arith,
    get-request "stream" refl ∙ ground arith,
    get-request "top_p" refl ∙ ground arith,
    get-request "stop" refl ∙ ground arith,
    get-request "model" refl,
    removed-request,
  )

-- ===== src/Json.antt =====
-- The data of `serde_json::Value` and the accessors that the source calls. Parsing and printing are
-- the crate's and stay parameters of what uses them.
use aperture_router.Prelude.{
  false, ap, ℕ, ◌≡◌, refl, String, Bool, Option, none, some, List, [], ◌∷◌, if◌then◌else◌, ◌==◌,
  string_eq, and_then,
}

-- `Number`: `negative n` is -(n + 1), and a float is its bit pattern.
pub data Number : Type 0 where
  unsigned negative float : ℕ → Number

mutual
  pub data Value : Type 0 where
    null : Value
    bool : Bool → Value
    number : Number → Value
    string : String → Value
    array : Items → Value
    object : Fields → Value

  pub data Items : Type 0 where
    nil : Items
    cons : Value → Items → Items

  pub data Fields : Type 0 where
    end : Fields
    field : String → Value → Fields → Fields

abbrev pub items : Items → List Value
items nil = []
items (cons v vs) = v ∷ items vs

abbrev pub to_items : List Value → Items
to_items [] = nil
to_items (v ∷ vs) = cons v (to_items vs)

pub items-to_items : (vs : List Value) → items (to_items vs) ≡ vs
items-to_items [] = refl
items-to_items (v ∷ vs) = ap (◌∷◌ v) (items-to_items vs)

-- `Value::Array(vec)`
abbrev pub array_of : List Value → Value
array_of vs = array (to_items vs)

-- `json!({ … })`
abbrev pub to_fields : List (String × Value) → Fields
to_fields [] = end
to_fields ((k, v) ∷ kvs) = field k v (to_fields kvs)

abbrev pub json : List (String × Value) → Value
json kvs = object (to_fields kvs)

abbrev pub num : ℕ → Value
num n = number (Number.unsigned n)

abbrev pub lookup : String → Fields → Option Value
lookup k end = none
lookup k (field j v fs) = if j == k then some v else lookup k fs

-- `Value::get` with a text
abbrev pub get : String → Value → Option Value
get k (object fs) = lookup k fs
get k _ = none

abbrev pub as_str : Value → Option String
as_str (string s) = some s
as_str _ = none

abbrev pub as_bool : Value → Option Bool
as_bool (bool b) = some b
as_bool _ = none

abbrev pub as_u64 : Value → Option ℕ
as_u64 (number (Number.unsigned n)) = some n
as_u64 _ = none

abbrev pub as_array : Value → Option (List Value)
as_array (array vs) = some (items vs)
as_array _ = none

-- `value.get(k).and_then(|v| v.as_str())`, and so on
abbrev pub get_str : String → Value → Option String
get_str k v = and_then (get k v) as_str

abbrev pub get_array : String → Value → Option (List Value)
get_array k v = and_then (get k v) as_array

abbrev pub get_u64 : String → Value → Option ℕ
get_u64 k v = and_then (get k v) as_u64

-- `map[k] = v` and `Map::insert`
abbrev pub insert_field : String → Value → Fields → Fields
insert_field k v end = field k v end
insert_field k v (field j w fs) =
    let rest = insert_field k v fs in if j == k then field k v fs else field j w rest

abbrev pub set_key : String → Value → Value → Value
set_key k v (object fs) = object (insert_field k v fs)
set_key k v w = w

-- `Map::remove`
abbrev pub remove_field : String → Fields → Fields
remove_field k end = end
remove_field k (field j w fs) =
    let rest = remove_field k fs in if j == k then rest else field j w rest

abbrev pub remove_key : String → Value → Value
remove_key k (object fs) = object (remove_field k fs)
remove_key k w = w

-- `v.get("type").and_then(|t| t.as_str()) == Some(name)`
abbrev pub is_str : Option String → String → Bool
is_str none name = false
is_str (some s) name = s == name

abbrev pub has_type : Value → String → Bool
has_type v name = is_str (get_str "type" v) name

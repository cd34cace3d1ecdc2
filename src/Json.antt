-- ===== src/Json.antt =====
-- `serde_json::Value`. A number is held as the text that it prints; an object has its keys in
-- order, since the workspace does not turn on `preserve_order`.
use basecrawl.Prelude.{
  ℕ, Bool, true, false, Option, none, some, List, [], ◌∷◌, Text, length, is_empty,
}
use basecrawl.TextMap.{TextMap, insert, get}

mutual
  pub data Value : Type 0 where
    null : Value
    bool : Bool → Value
    num str : Text → Value
    arr : Items → Value
    obj : Fields → Value

  pub data Items : Type 0 where
    nil : Items
    cons : Value → Items → Items

  pub data Fields : Type 0 where
    end : Fields
    field : Text → Value → Fields → Fields

abbrev pub items : Items → List Value
items nil = []
items (cons v vs) = v ∷ items vs

abbrev pub fields : Fields → TextMap Value
fields end = []
fields (field k v fs) = (k, v) ∷ fields fs

abbrev pub of_fields : TextMap Value → Fields
of_fields [] = end
of_fields ((k, v) ∷ m) = field k v (of_fields m)

-- `Map::insert` on an object; other values are left alone
unfoldable pub insert_field : Text → Value → Value → Value
insert_field k v (obj fs) = obj (of_fields (insert k v (fields fs)))
insert_field k v other = other

-- `json!({...})`
unfoldable pub object : TextMap Value → Value
unfolding insert_field
object [] = obj end
object ((k, v) ∷ m) = insert_field k v (object m)

unfoldable pub get_field : Value → Text → Option Value
get_field (obj fs) k = get (fields fs) k
get_field other k = none

unfoldable pub as_str : Value → Option Text
as_str (str s) = some s
as_str v = none

unfoldable pub as_bool : Value → Option Bool
as_bool (bool b) = some b
as_bool v = none

unfoldable pub is_null : Value → Bool
is_null null = true
is_null v = false

-- `is_empty_json` of crates/basecrawl-core/src/attestation.rs
unfoldable pub is_empty_json : Value → Bool
unfolding is_empty
is_empty_json (arr nil) = true
is_empty_json (obj end) = true
is_empty_json (str s) = is_empty s
is_empty_json v = false

-- `structural_field_count` of crates/basecrawl-core/src/canonical.rs
unfoldable pub structural_field_count : Value → ℕ
structural_field_count (obj fs) = length (fields fs)
structural_field_count (arr vs) = length (items vs)
structural_field_count v = 0

-- ===== src/Json.antt =====
-- JSON documents as the two codecs build them, with `QJsonObject`, `QJsonArray` and `QJsonValue` or
-- `boost::json::object`, `array` and `value`.
use Prim.Native.String.{String}
use text.Mathlib.Text.{◌==◌ as str_eq}
use chat_hub.Prelude.{List, [], ◌∷◌, Bool, ℤ, Option, none, some, Bytes, if◌then◌else◌}

mutual
  pub data Json : Type 0 where
    string : Bytes → Json
    number : ℤ → Json
    flag : Bool → Json
    array : Items → Json
    object : Fields → Json

  pub data Items : Type 0 where
    no_items : Items
    item : Json → Items → Items

  pub data Fields : Type 0 where
    no_fields : Fields
    field : String → Json → Fields → Fields

-- `insert(key, value)`, or `object[key] = value`: it replaces the value of a key that is there.
unfoldable pub put : String → Json → Fields → Fields
put key value no_fields = field key value no_fields
put key value (field k v fields) =
    let rest = put key value fields in if str_eq k key then field k value fields else field k v rest

unfoldable pub lookup : String → Fields → Option Json
lookup key no_fields = none
lookup key (field k v fields) = if str_eq k key then some v else lookup key fields

-- An array of texts, appended one by one.
unfoldable pub texts : List Bytes → Items
texts [] = no_items
texts (t ∷ rest) = item (string t) (texts rest)

-- What a library makes of each item.
unfoldable pub each_item : {Value : Type 0} → (Json → Value) → Items → List Value
each_item view no_items = []
each_item view (item j items) = view j ∷ each_item view items

-- ===== src/Exchange.antt =====
-- The hello exchange of client-qt/src/hello_codec.cpp and chat-server/src/hello_codec.cpp together:
-- what one side encodes, the other decodes. What the theorems assume of the JSON libraries is here.
pub mod Texts
mod Lookups
pub mod Request
pub mod Response
pub mod Wire
pub mod Negotiation
pub mod ErrorCodes
use Prim.Native.String.{String}
use chat_hub.Prelude.{
  ℕ, ◌≤◌, ◌≡◌, Bool, true, false, List, [], ◌∷◌, All, Bytes, length, ℤ, pos, Option, none, some,
}
use chat_hub.Codec.{JsonLibrary}
use chat_hub.ClientCodec.{QtLibrary}
use chat_hub.Codec.Fields.{IsLimited}
use chat_hub.Double.{Double}
use chat_hub.Double.Integers.{IsInteger}
use chat_hub.Hello.{CapabilitySet}
use chat_hub.Hello.Sets.{Built}
use chat_hub.Json.{Json, string, number, flag, array, object, Items, Fields, lookup, each_item}
use chat_hub.Utf8.{is_valid_utf8}

abbrev pub view_of : {Value : Type 0} → (Json → Value) → Option Json → Option Value
view_of view none = none
view_of view (some j) = some (view j)

-- How a reader shows a document that it has parsed: its accessors return what the document has.
pub record Views {Value Object : Type 0} (json : JsonLibrary Value Object) : Type 0 where
  pub view : Json → Value
  pub view_fields : Fields → Object
  pub of_string : (t : Bytes) → json.as_string (view (string t)) ≡ some t
  pub of_object : (fs : Fields) → json.as_object (view (object fs)) ≡ some (view_fields fs)
  pub of_array : (items : Items) → json.as_array (view (array items)) ≡ some (each_item view items)
  pub of_field :
      (fs : Fields) (key : String) → json.find (view_fields fs) key ≡ view_of view (lookup key fs)

-- The same for Qt, whose numbers are doubles: an integer up to 2^53-1 is one exactly.
pub record QtViews {Value Object : Type 0} (qt : QtLibrary Value Object) : Type 0 where
  pub views : Views qt.json
  pub of_document : (fs : Fields) → qt.is_null (views.view (object fs)) ≡ false
  pub of_flag : (b : Bool) → qt.as_bool (views.view (flag b)) ≡ some b
  pub of_number :
      (n : ℕ)
      → n ≤ 9007199254740991
      → (d : Double) × (qt.as_double (views.view (number (pos n))) ≡ some d) × IsInteger d n

-- A `QString` made of valid UTF-8 gives that text back.
abbrev pub KeepsUtf8 : (Bytes → Bytes) → Type 0
KeepsUtf8 from_std_string = (t : Bytes) → is_valid_utf8 t ≡ true → from_std_string t ≡ t

-- The reader parses what the writer has written for this document.
abbrev pub ReadsBack :
    {Value Object : Type 0} {json : JsonLibrary Value Object} → Views json → Bytes → Fields → Type 0
ReadsBack {json} views written root = json.parse written ≡ some (views.view (object root))

-- A text field that passes: its length is within the limit, and it is valid UTF-8.
abbrev pub IsField : ℕ → Bytes → Type 0
IsField limit t = IsLimited limit t × (is_valid_utf8 t ≡ true)

-- A set of capabilities that passes.
pub record AreCapabilities (set : CapabilitySet) : Type 0 where
  pub built : Built set
  pub few : length set.value ≤ 16
  pub each : All (IsField 64) set.value

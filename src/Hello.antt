-- ===== src/Hello.antt =====
-- The value types of shared/include/chathub/contracts/hello.hpp: `CapabilitySet` over the
-- `std::set<std::string>` of the standard library, which holds its texts in ascending order.
pub mod TextOrder
pub mod Ascending
pub mod Sets
pub mod Members
pub mod Bounds
use chat_hub.Prelude.{
  codes, ℕ, List, [], ◌∷◌, Bool, true, false, not, ◌&&◌, ◌||◌, ltb, ◌==◌, if◌then◌else◌, Bytes,
  length, ℤ, pos,
}

abbrev pub max_json_bytes : ℕ
max_json_bytes = 65536

abbrev pub max_text_bytes : ℕ
max_text_bytes = 4096

abbrev pub heartbeat_idle_ms : ℕ
heartbeat_idle_ms = 20000

abbrev pub session_timeout_ms : ℕ
session_timeout_ms = 60000

abbrev pub max_client_version_bytes : ℕ
max_client_version_bytes = 32

abbrev pub max_platform_bytes : ℕ
max_platform_bytes = 16

abbrev pub max_capability_value_bytes : ℕ
max_capability_value_bytes = 64

abbrev pub max_capability_count : ℕ
max_capability_count = 16

-- `kServerVersion` and `kSupportClientVersion`.
abbrev pub server_version : Bytes
server_version = codes "1.0"

abbrev pub support_client_version : Bytes
support_client_version = codes "1.0"

-- `kPlatform`.
abbrev pub desktop_platform : Bytes
desktop_platform = codes "windows"

-- `kCapabilityTextV1`.
abbrev pub capability_text_v1 : Bytes
capability_text_v1 = codes "text_v1"

-- `operator<` of `std::string`.
unfoldable pub text_less : Bytes → Bytes → Bool
text_less s [] = false
text_less [] (d ∷ t) = true
text_less (c ∷ s) (d ∷ t) =
    let rest = text_less s t in if ltb c d then true else if ltb d c then false else rest

-- Neither is less.
unfoldable pub same_text : Bytes → Bytes → Bool
same_text s t = not (text_less s t) && not (text_less t s)

-- `std::set::emplace`.
unfoldable pub emplace : Bytes → List Bytes → List Bytes
emplace v [] = v ∷ []
emplace v (x ∷ xs) =
    let rest = emplace v xs in
    if text_less v x then v ∷ x ∷ xs else if text_less x v then x ∷ rest else x ∷ xs

-- `std::set::contains`.
unfoldable pub member : Bytes → List Bytes → Bool
member v [] = false
member v (x ∷ xs) = same_text v x || member v xs

pub record CapabilitySet : Type 0 where
  pub value : List Bytes

abbrev pub no_capabilities : CapabilitySet
no_capabilities = record { value = [] }

unfoldable pub contains : CapabilitySet → Bytes → Bool
contains set value = member value set.value

unfoldable pub insert : CapabilitySet → Bytes → CapabilitySet
insert set value = record { value = emplace value set.value }

abbrev pub is_empty : CapabilitySet → Bool
is_empty set = length set.value == 0

abbrev pub size : CapabilitySet → ℕ
size set = length set.value

-- The loop of the constructor.
unfoldable pub insert_each : CapabilitySet → List Bytes → CapabilitySet
insert_each set [] = set
insert_each set (v ∷ values) = insert_each (insert set v) values

-- `CapabilitySet(std::initializer_list<std::string_view>)`.
unfoldable pub of_values : List Bytes → CapabilitySet
unfolding insert_each
of_values values = insert_each no_capabilities values

-- The loop of `intersect` over the values of `a`.
keep_common : List Bytes → CapabilitySet → CapabilitySet → CapabilitySet
keep_common [] b out = out
keep_common (v ∷ values) b out =
    keep_common values b (if member v b.value then insert out v else out)

unfoldable pub intersect : CapabilitySet → CapabilitySet → CapabilitySet
unfolding keep_common
intersect a b = keep_common a.value b no_capabilities

pub record HelloRequest : Type 0 where
  pub client_version : Bytes
  pub platform : Bytes
  pub capabilities : CapabilitySet

-- `server_time` is an `int64_t`, the four parameters are `uint32_t`.
pub record HelloResponse : Type 0 where
  pub server_version : Bytes
  pub server_time : ℤ
  pub max_json : ℕ
  pub max_text : ℕ
  pub heartbeat_idle : ℕ
  pub timeout : ℕ
  pub capabilities : CapabilitySet

-- `HelloResponse{}`.
abbrev pub default_response : HelloResponse
default_response = record {
  server_version = server_version;
  server_time = pos 0;
  max_json = max_json_bytes;
  max_text = max_text_bytes;
  heartbeat_idle = heartbeat_idle_ms;
  timeout = session_timeout_ms;
  capabilities = no_capabilities;
}

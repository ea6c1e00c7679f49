-- ===== src/CertFields.antt =====
-- What `inspectCertPem` of tools/pki/src/dev_ca.cpp makes of the parts of a certificate: its key usage,
-- its names, and the texts of its serial number and its algorithm.
use chat_hub.DevCa.{Nid}
use chat_hub.Ids.DecimalSeq.{to_string}
use chat_hub.Prelude.{
  ℕ, ◌+◌, ◌-◌, List, [], ◌∷◌, ◌++◌, map, Bool, true, false, ◌&&◌, ◌||◌, ◌==◌, ltb, within,
  if◌then◌else◌, Bytes, length, get_or, ℤ, Option, none, some,
}

-- A `GENERAL_NAME` by its type.
pub data GeneralName : Type 0 where
  dns : GeneralName
  ip_address : Bytes → GeneralName
  other_name : GeneralName

-- One bit of the key usage, if it is there.
unfoldable pub usage_bit_of :
    {BitString : Type 0} → (BitString → ℕ → ℕ) → Option BitString → ℕ → Bool
usage_bit_of get_bit none i = false
usage_bit_of get_bit (some ku) i = get_bit ku i == 1

-- `OBJ_obj2nid(...) == NID_server_auth`.
unfoldable pub is_server_auth : Nid → Bool
is_server_auth Nid.server_auth = true
is_server_auth Nid.basic_constraints = false
is_server_auth Nid.key_usage = false
is_server_auth Nid.subject_key_identifier = false
is_server_auth Nid.ext_key_usage = false
is_server_auth Nid.subject_alt_name = false
is_server_auth Nid.authority_key_identifier = false
is_server_auth Nid.other_nid = false

-- The loop over the key usages.
unfoldable pub any_server_auth : {Object : Type 0} → (Object → Nid) → List Object → Bool
unfolding is_server_auth
any_server_auth obj2nid [] = false
any_server_auth obj2nid (o ∷ eku) = is_server_auth (obj2nid o) || any_server_auth obj2nid eku

-- What the loop over the names collects.
pub record San : Type 0 where
  pub dns_found : Bool
  pub ipv6_found : Bool
  pub ips : List Bytes

-- The text that is put together from four bytes.
unfoldable pub ip_text : Bytes → Bytes
ip_text ip =
    to_string (get_or ip 0 0)
    ++ (b'.'
        ∷ (to_string (get_or ip 1 0)
            ++ (b'.' ∷ (to_string (get_or ip 2 0) ++ (b'.' ∷ to_string (get_or ip 3 0))))))

unfoldable pub add_name : San → GeneralName → San
add_name s dns = record s { dns_found = true }
add_name s (ip_address ip) =
    if length ip == 4
    then record s { ips = s.ips ++ (ip_text ip ∷ []) }
    else if length ip == 16
    then record s { ipv6_found = true }
    else s
add_name s other_name = s

unfoldable pub collect_names : San → List GeneralName → San
collect_names s [] = s
collect_names s (g ∷ names) = collect_names (add_name s g) names

-- The facts about the names; none if the extension is missing.
unfoldable pub san_of : Option (List GeneralName) → San
san_of none = record { dns_found = false; ipv6_found = false; ips = [] }
san_of (some names) =
    collect_names (record { dns_found = false; ipv6_found = false; ips = [] }) names

-- The loop over `serial_hex`.
unfoldable pub lower_hex : Bytes → Bytes
lower_hex = map (λ c. if within b'A' b'F' c then c - b'A' + b'a' else c)

-- The text in the buffer, where the result lies above 0 and below the size.
unfoldable pub oid_text : ℤ × Bytes → Bytes
oid_text (ℤ.pos n, buffer) = if ltb 0 n && ltb n 128 then buffer else []
oid_text (ℤ.negsuc n, buffer) = []

unfoldable pub text_or_empty : Option Bytes → Bytes
text_or_empty none = []
text_or_empty (some t) = t

unfoldable pub any_usage : {Object : Type 0} → (Object → Nid) → Option (List Object) → Bool
any_usage obj2nid none = false
any_usage obj2nid (some eku) = any_server_auth obj2nid eku

unfoldable pub bind_option : {A B : Type 0} → Option A → (A → Option B) → Option B
bind_option none next = none
bind_option (some a) next = next a

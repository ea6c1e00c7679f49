-- ===== src/Protocol/Registry.antt =====
-- `findProtocol` finds exactly the registered descriptors.
use chat_hub.Prelude.{
  ℕ, zero, suc, List, [], ◌∷◌, ◌≡◌, refl, Bool, true, not, inl, inr, ◌↔◌, some, arith, get_elem?,
  ltb, ◌<◌, ◌==◌, &&_iff, Bool-cases,
}
use chat_hub.Protocol.{find_in, find_protocol}
use chat_hub.Protocol.Checks.{check_all, check_all_at, Registered, Registered-check, all_distinct}
use chat_hub.Protocol.Descriptor.{ProtocolDescriptor}
use chat_hub.Protocol.Table.{protocol_descriptors}
use chat_hub.Protocol.Types.{ProtocolType}

abbrev types_differ : ProtocolDescriptor → ProtocolDescriptor → Bool
types_differ d e = not (d.type == e.type)

types_distinct : all_distinct types_differ protocol_descriptors ≡ true
unfolding all_distinct
types_distinct = refl

find_in-get_elem :
    (t : ProtocolType) (ds : List ProtocolDescriptor) {d : ProtocolDescriptor}
    → find_in t ds ≡ some d
    → (i : ℕ) × (get_elem? ds i ≡ some d) × (d.type ≡ t)
unfolding find_in
find_in-get_elem t [] e = cc
find_in-get_elem t (x ∷ ds) e = elim (Bool-cases (x.type == t)) [
  | inl same ↦ (0, ground arith, ground arith)
  | inr other ↦ let (i, at, found) = find_in-get_elem t ds (rw other at e) in (suc i, at, found)
]

find_in_at :
    (ds : List ProtocolDescriptor) (i : ℕ) (d : ProtocolDescriptor)
    → all_distinct types_differ ds ≡ true
    → get_elem? ds i ≡ some d
    → find_in d.type ds ≡ some d
unfolding find_in all_distinct
find_in_at [] i d h e = cc
find_in_at (x ∷ ds) zero d h e = ground arith
find_in_at (x ∷ ds) (suc i) d h e =
    let split = (&&_iff (check_all (types_differ x) ds) (all_distinct types_differ ds)).0 h in
    let differ = check_all_at (types_differ x) ds i split.0 e in
    ground (arith, find_in_at ds i d split.1 e, differ)

-- `find_protocol` returns a descriptor exactly if it is registered under the type asked for; so no
-- two registered descriptors share a type, and an unregistered type has none.
pub find_protocol_iff :
    (t : ProtocolType) (d : ProtocolDescriptor)
    → (find_protocol t ≡ some d) ↔ (Registered d × (d.type ≡ t))
unfolding find_protocol
find_protocol_iff t d = (
  λ e. let (i, at, found) = find_in-get_elem t protocol_descriptors e in ((i, at), found),
  λ h. rw (← h.1) (find_in_at protocol_descriptors h.0.0 d types_distinct h.0.1),
)

ltb_byte : (a b : ℕ) → a ≡ b → ltb a 256 ≡ true → b < 256
ltb_byte a b e h = ground arith

type_is_byte : check_all (λ d. ltb d.type 256) protocol_descriptors ≡ true
unfolding check_all
type_is_byte = refl

-- The types that are found are bytes.
pub found_byte :
    (t : ProtocolType) (d : ProtocolDescriptor)
    → find_protocol t ≡ some d
    → (d.type ≡ t) × (t < 256)
found_byte t d e =
    let (reg, same) = (find_protocol_iff t d).0 e in
    let below = Registered-check (λ x. ltb x.type 256) type_is_byte reg in
    (same, ltb_byte d.type t same below)

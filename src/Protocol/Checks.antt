-- ===== src/Protocol/Checks.antt =====
-- Facts about every descriptor of the table, established by running a Boolean check over it.
use chat_hub.Prelude.{
  ℕ, zero, suc, List, [], ◌∷◌, ◌≡◌, Bool, true, ◌&&◌, some, arith, get_elem?, &&_iff,
}
use chat_hub.Protocol.Descriptor.{ProtocolDescriptor}
use chat_hub.Protocol.Table.{protocol_descriptors}

unfoldable pub check_all : (ProtocolDescriptor → Bool) → List ProtocolDescriptor → Bool
check_all p [] = true
check_all p (d ∷ ds) = p d && check_all p ds

-- The descriptor stands in the table.
abbrev pub Registered : ProtocolDescriptor → Type 0
Registered d = (i : ℕ) × (get_elem? protocol_descriptors i ≡ some d)

pub check_all_at :
    (p : ProtocolDescriptor → Bool) (ds : List ProtocolDescriptor) (i : ℕ) {d : ProtocolDescriptor}
    → check_all p ds ≡ true
    → get_elem? ds i ≡ some d
    → p d ≡ true
unfolding check_all
check_all_at p [] i h e = cc
check_all_at p (x ∷ ds) zero h e = ground (arith, (&&_iff (p x) (check_all p ds)).0 h)
check_all_at p (x ∷ ds) (suc i) h e = check_all_at p ds i ((&&_iff (p x) (check_all p ds)).0 h).1 e

pub Registered-check :
    (p : ProtocolDescriptor → Bool) {d : ProtocolDescriptor}
    → check_all p protocol_descriptors ≡ true
    → Registered d
    → p d ≡ true
Registered-check p h (i, e) = check_all_at p protocol_descriptors i h e

-- The key of each descriptor differs from the keys behind it.
unfoldable pub all_distinct :
    (ProtocolDescriptor → ProtocolDescriptor → Bool) → List ProtocolDescriptor → Bool
unfolding check_all
all_distinct differ [] = true
all_distinct differ (d ∷ ds) = check_all (differ d) ds && all_distinct differ ds

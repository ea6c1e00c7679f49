-- ===== src/Protocol/Ownership.antt =====
-- Which request a response belongs to.
use chat_hub.Prelude.{
  ℕ, zero, suc, ◌≡◌, refl, List, [], ◌∷◌, Bool, true, false, not, Option, none, some, arith, ◌==◌,
  &&_iff, get_elem?, ◌||◌, inl, inr, Bool-cases,
}
use chat_hub.Protocol.Checks.{check_all, check_all_at, Registered, Registered-check, all_distinct}
use chat_hub.Protocol.Descriptor.{Direction, ProtocolDescriptor}
use chat_hub.Protocol.Table.{protocol_descriptors}
use chat_hub.Protocol.Types.{ProtocolType}

names : Option ProtocolType → ProtocolType → Bool
names none t = false
names (some s) t = s == t

names_sound : (o : Option ProtocolType) (t : ProtocolType) → names o t ≡ true → o ≡ some t
unfolding names
names_sound none t h = cc
names_sound (some s) t h = ground arith

-- Some descriptor of the list names the type as its response.
owned : ProtocolType → List ProtocolDescriptor → Bool
unfolding names
owned t [] = false
owned t (d ∷ ds) = names d.response t || owned t ds

-- Two descriptors do not name the same response.
both_name : Option ProtocolType → Option ProtocolType → Bool
both_name (some s) (some t) = s == t
both_name _ _ = false

is_owned_response : Direction → ProtocolType → Bool
unfolding owned
is_owned_response Direction.response t = owned t protocol_descriptors
is_owned_response _ t = true

owned_table : check_all (λ d. is_owned_response d.direction d.type) protocol_descriptors ≡ true
unfolding check_all is_owned_response
owned_table = refl

abbrev responses_differ : ProtocolDescriptor → ProtocolDescriptor → Bool
responses_differ d e = not (both_name d.response e.response)

responses_distinct : all_distinct responses_differ protocol_descriptors ≡ true
unfolding all_distinct both_name
responses_distinct = refl

both_name_same : (t : ProtocolType) → both_name (some t) (some t) ≡ true
unfolding both_name
both_name_same t = ground arith

-- A descriptor of the list that names `x`'s response stands before `x`.
not_behind :
    (x : ProtocolDescriptor) (ds : List ProtocolDescriptor) (i : ℕ) (t : ProtocolType)
    (d : ProtocolDescriptor)
    → all_distinct responses_differ (x ∷ ds) ≡ true
    → get_elem? ds i ≡ some d
    → x.response ≡ some t
    → d.response ≡ some t
    → ⊥
unfolding all_distinct
not_behind x ds i t d h at r s =
    let split =
      (&&_iff (check_all (responses_differ x) ds) (all_distinct responses_differ ds)).0 h in
    let differ = check_all_at (responses_differ x) ds i split.0 at in
    ground (arith, differ, both_name_same t)

unique_at :
    (ds : List ProtocolDescriptor) (i j : ℕ) (t : ProtocolType) (d e : ProtocolDescriptor)
    → all_distinct responses_differ ds ≡ true
    → get_elem? ds i ≡ some d
    → get_elem? ds j ≡ some e
    → d.response ≡ some t
    → e.response ≡ some t
    → d ≡ e
unfolding all_distinct
unique_at [] i j t d e h p q r s = cc
unique_at (x ∷ ds) zero zero t d e h p q r s = cc
unique_at (x ∷ ds) (suc i) zero t d e h p q r s =
    absurd (not_behind x ds i t d h p (ground arith) r)
unique_at (x ∷ ds) zero (suc j) t d e h p q r s =
    absurd (not_behind x ds j t e h q (ground arith) s)
unique_at (x ∷ ds) (suc i) (suc j) t d e h p q r s =
    unique_at ds i j t d e
      ((&&_iff (check_all (responses_differ x) ds) (all_distinct responses_differ ds)).0 h).1 p q r
      s

owned_sound :
    (t : ProtocolType) (ds : List ProtocolDescriptor)
    → owned t ds ≡ true
    → (q : ProtocolDescriptor) × (i : ℕ) × (get_elem? ds i ≡ some q) × (q.response ≡ some t)
unfolding owned
owned_sound t [] h = cc
owned_sound t (d ∷ ds) h = elim (Bool-cases (names d.response t)) [
  | inl here ↦ (d, 0, refl, names_sound d.response t here)
  | inr there ↦ let (q, i, at, e) = owned_sound t ds (rw there at h) in (q, suc i, at, e)
]

is_owned-response :
    (d : ProtocolDescriptor)
    → d.direction ≡ Direction.response
    → is_owned_response d.direction d.type ≡ true
    → owned d.type protocol_descriptors ≡ true
unfolding is_owned_response
is_owned-response d e h = rw e at h

-- Every registered response type is named as its response by a registered descriptor.
pub response_owner :
    (d : ProtocolDescriptor)
    → Registered d
    → d.direction ≡ Direction.response
    → (q : ProtocolDescriptor) × Registered q × (q.response ≡ some d.type)
response_owner d reg e =
    let here =
      is_owned-response d e
        (Registered-check (λ x. is_owned_response x.direction x.type) owned_table reg) in
    let (q, i, at, named) = owned_sound d.type protocol_descriptors here in (q, (i, at), named)

-- No two registered descriptors name the same response type, so a response tells its request.
pub response-injective :
    (t : ProtocolType) (d e : ProtocolDescriptor)
    → Registered d
    → Registered e
    → d.response ≡ some t
    → e.response ≡ some t
    → d ≡ e
response-injective t d e (i, at) (j, at') named named' =
    unique_at protocol_descriptors i j t d e responses_distinct at at' named named'

-- ===== src/Protocol/Pairing.antt =====
-- Requests and their responses in the table.
use text.Mathlib.Text.{◌==◌ as str_eq}
use text.Mathlib.TextEquality.{eq_iff}
use chat_hub.Prelude.{
  ◌≡◌, refl, sym, subst, Bool, true, false, ◌&&◌, Option, none, some, arith, ◌==◌,
}
use chat_hub.Protocol.{find_in, find_protocol}
use chat_hub.Protocol.Checks.{check_all, Registered, Registered-check}
use chat_hub.Protocol.Descriptor.{Direction, ProtocolDescriptor}
use chat_hub.Protocol.Registry.{find_protocol_iff}
use chat_hub.Protocol.Table.{protocol_descriptors}
use chat_hub.Protocol.Types.{ProtocolType}

is_response : Direction → Bool
is_response Direction.response = true
is_response _ = false

is_response_sound : (d : Direction) → is_response d ≡ true → d ≡ Direction.response
unfolding is_response
is_response_sound Direction.response h = refl
is_response_sound _ h = cc

-- `r` can answer the request `d`.
answers : ProtocolDescriptor → Option ProtocolDescriptor → Bool
unfolding is_response
answers d none = false
answers d (some r) =
    is_response r.direction
    && r.allowed_states == d.allowed_states
    && str_eq r.capability d.capability

paired : Direction → Option ProtocolType → ProtocolDescriptor → Bool
unfolding answers
paired Direction.request (some t) d = answers d (find_protocol t)
paired Direction.request none d = false
paired _ none d = true
paired _ (some t) d = false

table_paired : check_all (λ d. paired d.direction d.response d) protocol_descriptors ≡ true
unfolding check_all paired find_protocol find_in
table_paired = refl

-- The response of a request, as the registry has it.
abbrev pub AnsweredBy : ProtocolDescriptor → ProtocolDescriptor → Type 0
AnsweredBy d r =
    (d.response ≡ some r.type)
    × (find_protocol r.type ≡ some r)
    × (r.direction ≡ Direction.response)
    × (r.allowed_states ≡ d.allowed_states)
    × (r.capability ≡ d.capability)

answers-AnsweredBy :
    (d : ProtocolDescriptor) (t : ProtocolType) (o : Option ProtocolDescriptor)
    → d.response ≡ some t
    → find_protocol t ≡ o
    → answers d o ≡ true
    → (r : ProtocolDescriptor) × AnsweredBy d r
unfolding answers
answers-AnsweredBy d t none e f h = cc
answers-AnsweredBy d t (some r) e f h =
    let same : r.type ≡ t = ((find_protocol_iff t r).0 f).1 in
    let response_of : d.response ≡ some r.type = cc in
    (
      r,
      (
        response_of,
        subst (λ s. find_protocol s ≡ some r) (sym same) f,
        is_response_sound r.direction (ground arith),
        ground arith,
        ground (arith, eq_iff r.capability d.capability),
      ),
    )

request_paired :
    (d : ProtocolDescriptor) (o : Option ProtocolType)
    → d.response ≡ o
    → d.direction ≡ Direction.request
    → paired d.direction o d ≡ true
    → (r : ProtocolDescriptor) × AnsweredBy d r
unfolding paired
request_paired d none e q h = cc (rw q at h)
request_paired d (some t) e q h = answers-AnsweredBy d t (find_protocol t) e refl (rw q at h)

-- Every registered request names a response type; that type is registered as a response, allowed
-- in the same connection states and behind the same capability.
pub request_answered :
    (d : ProtocolDescriptor)
    → Registered d
    → d.direction ≡ Direction.request
    → (r : ProtocolDescriptor) × AnsweredBy d r
request_answered d reg q =
    request_paired d d.response refl q
      (Registered-check (λ e. paired e.direction e.response e) table_paired reg)

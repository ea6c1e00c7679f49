-- ===== src/Protocol/Policy.antt =====
-- In which connection states each type is allowed, and the limits of each type.
use chat_hub.Prelude.{
  ℕ, ◌≤◌, ◌<◌, ◌≡◌, refl, Bool, true, false, ◌&&◌, ◌||◌, ◌↔◌, arith, leb, ltb, within, ◌==◌,
}
use chat_hub.Prelude.Bits.{every_below, every_below_at}
use chat_hub.Protocol.Checks.{check_all, Registered, Registered-check}
use chat_hub.Protocol.ConnectionStates.{ConnectionState, ConnectionStates, join, has_state}
use chat_hub.Protocol.Descriptor.{Direction, ProtocolDescriptor}
use chat_hub.Protocol.Table.{protocol_descriptors}
use chat_hub.Protocol.Types.{ProtocolType, heartbeat}

-- The numbers of the types of each phase: the control types that every phase may send, the
-- handshake, the account types before authentication, and the types behind it.
abbrev pub is_handshake : ProtocolType → Bool
is_handshake t = t == 0x04 || t == 0x05

abbrev pub is_preauth : ProtocolType → Bool
is_preauth t = within 0x10 0x19 t

abbrev pub is_postauth : ProtocolType → Bool
is_postauth t = within 0x1a 0x87 t

abbrev pub is_error : ProtocolType → Bool
is_error t = t == 0x01

abbrev pub is_heartbeat : ProtocolType → Bool
is_heartbeat t = t == 0x02

-- The phases in which the numbers of the types place them.
abbrev pub in_phase : ConnectionState → ProtocolType → Bool
in_phase ConnectionState.awaiting_hello t = is_error t || is_handshake t
in_phase ConnectionState.unauthenticated t = is_error t || is_heartbeat t || is_preauth t
in_phase ConnectionState.authenticated t = is_error t || is_heartbeat t || is_postauth t

abbrev iffb : Bool → Bool → Bool
iffb true b = b
iffb false true = false
iffb false false = true

iffb_sound : (a b : Bool) → iffb a b ≡ true → a ≡ b
iffb_sound a b h = ground arith

phase_check : ConnectionState → ProtocolDescriptor → Bool
phase_check s d = iffb (has_state d.allowed_states s) (in_phase s d.type)

phase_table : (s : ConnectionState) → check_all (phase_check s) protocol_descriptors ≡ true
unfolding check_all phase_check has_state
phase_table ConnectionState.awaiting_hello = refl
phase_table ConnectionState.unauthenticated = refl
phase_table ConnectionState.authenticated = refl

-- A registered type is allowed in a connection state exactly if its number lies in the ranges of
-- that phase: before hello only the hello pair (0x04, 0x05), before authentication the account
-- types 0x10 to 0x19, behind it the types from 0x1a on; an error report is allowed always, and the
-- heartbeat once hello is done.
pub allowed_by_phase :
    (s : ConnectionState) (d : ProtocolDescriptor)
    → Registered d
    → has_state d.allowed_states s ≡ in_phase s d.type
unfolding phase_check
allowed_by_phase s d reg =
    iffb_sound (has_state d.allowed_states s) (in_phase s d.type)
      (Registered-check (phase_check s) (phase_table s) reg)

is_request : Direction → Bool
is_request Direction.request = true
is_request _ = false

is_request_iff : (d : Direction) → (is_request d ≡ true) ↔ (d ≡ Direction.request)
unfolding is_request
is_request_iff Direction.request = (λ h. refl, λ h. refl)
is_request_iff _ = (λ h. cc, λ h. cc)

limit_check : ProtocolDescriptor → Bool
limit_check d =
    leb d.max_body 65536
    && iffb (d.max_body == 0) (d.type == heartbeat)
    && iffb (ltb 0 d.default_timeout_ms) (is_request d.direction)
    && leb d.default_timeout_ms 10000

limit_table : check_all limit_check protocol_descriptors ≡ true
unfolding check_all limit_check is_request
limit_table = refl

-- What the limits of a descriptor are to be.
abbrev pub HasLimits : ProtocolDescriptor → Type 0
HasLimits d =
    (d.max_body ≤ 65536)
    × ((d.max_body ≡ 0) ↔ (d.type ≡ heartbeat))
    × ((0 < d.default_timeout_ms) ↔ (d.direction ≡ Direction.request))
    × (d.default_timeout_ms ≤ 10000)

limit_check_sound : (d : ProtocolDescriptor) → limit_check d ≡ true → HasLimits d
unfolding limit_check
limit_check_sound d checked =
    let request = is_request_iff d.direction in
    (
      ground arith,
      (λ h. ground arith, λ h. ground arith),
      (λ h. request.0 (ground arith), λ h. ground (arith, request.1 h)),
      ground arith,
    )

-- The limits of a registered type: its body holds at most 65536 bytes, and none exactly for the
-- heartbeat; it has a timeout exactly if it is a request, of at most ten seconds.
pub type_limits : (d : ProtocolDescriptor) → Registered d → HasLimits d
type_limits d reg = limit_check_sound d (Registered-check limit_check limit_table reg)

join_check : ConnectionState → ℕ → ℕ → Bool
join_check s a b = iffb (has_state (join a b) s) (has_state a s || has_state b s)

join_table : (s : ConnectionState) → every_below (λ a. every_below (join_check s a) 8) 8 ≡ true
unfolding every_below join_check has_state
join_table ConnectionState.awaiting_hello = refl
join_table ConnectionState.unauthenticated = refl
join_table ConnectionState.authenticated = refl

-- `operator|` is the union of two sets of the three states.
pub has_state-join :
    (s : ConnectionState) (a b : ConnectionStates)
    → a < 8
    → b < 8
    → has_state (join a b) s ≡ (has_state a s || has_state b s)
unfolding join_check
has_state-join s a b ha hb = iffb_sound (has_state (join a b) s) (has_state a s || has_state b s) (
    every_below_at (join_check s a) 8 b hb
      (every_below_at (λ x. every_below (join_check s x) 8) 8 a ha (join_table s)))

-- ===== src/Protocol/ConnectionStates.antt =====
-- `ConnectionState`, the bit set `ConnectionStates`, its `operator|` and `hasState`, of
-- shared/include/chathub/contracts/protocol_descriptor.hpp. A set is its underlying `uint8_t`.
use chat_hub.Prelude.{ℕ, ◌*◌, ◌%◌, ◌^◌, Bool, not, ◌==◌, bit_and, bit_or}

pub data ConnectionState : Type 0 where
  awaiting_hello unauthenticated authenticated : ConnectionState

abbrev pub ConnectionStates : Type 0
ConnectionStates = ℕ

-- The underlying value of a state: 0, 1 or 2.
abbrev pub ordinal : ConnectionState → ℕ
ordinal ConnectionState.awaiting_hello = 0
ordinal ConnectionState.unauthenticated = 1
ordinal ConnectionState.authenticated = 2

-- The constants of `ConnectionStates`.
abbrev pub no_states : ConnectionStates
no_states = 0

abbrev pub only_awaiting_hello : ConnectionStates
only_awaiting_hello = 1 * 2 ^ 0

abbrev pub only_unauthenticated : ConnectionStates
only_unauthenticated = 1 * 2 ^ 1

abbrev pub only_authenticated : ConnectionStates
only_authenticated = 1 * 2 ^ 2

-- `operator|`.
abbrev pub join : ConnectionStates → ConnectionStates → ConnectionStates
join a b = bit_or a b % 256

abbrev pub all : ConnectionStates
all = bit_or (bit_or only_awaiting_hello only_unauthenticated) only_authenticated

unfoldable pub has_state : ConnectionStates → ConnectionState → Bool
has_state states state = not (bit_and states (1 * 2 ^ ordinal state % 256) == 0)

-- ===== src/Tests/Transport.antt =====
-- Capability sets, the server's handshake and IPv4 literals.
use chat_hub.Prelude.{codes, ℕ, ◌≡◌, ◌⊎◌, ◌↔◌, refl, List, [], ◌∷◌, true, false, some, Bytes}
use chat_hub.Hello.{
  text_less, same_text, emplace, member, CapabilitySet, contains, insert, of_values, intersect,
  capability_text_v1, is_empty,
}
use chat_hub.Hello.Members.{IsListed, contains_iff}
use chat_hub.Handshake.{Shared, started}
use chat_hub.Handshake.Outcomes.{
  Callback, timer_ends, handshake_ends, run_callbacks, verdict, Settled, run-Settled,
}
use chat_hub.Pki.{split_dot, octet_value, is_octet, ipv4_loop, is_ipv4_literal}
use chat_hub.Pki.Ipv4.{IsDottedQuad, is_ipv4_literal_iff}

abbrev file_v1 : Bytes
file_v1 = codes "file_v1"

abbrev client_set : CapabilitySet
client_set = of_values (capability_text_v1 ∷ file_v1 ∷ capability_text_v1 ∷ [])

abbrev server_set : CapabilitySet
server_set = of_values (capability_text_v1 ∷ [])

client_values : client_set.value ≡ file_v1 ∷ capability_text_v1 ∷ []
unfolding of_values insert emplace text_less
client_values = refl

negotiated : intersect client_set server_set ≡ server_set
unfolding intersect of_values insert emplace member same_text text_less
negotiated = refl

contains_iff_example :
    ((contains client_set file_v1 ≡ true)
      ↔ IsListed file_v1 (capability_text_v1 ∷ file_v1 ∷ capability_text_v1 ∷ []))
    × ((contains (insert client_set file_v1) file_v1 ≡ true)
        ↔ ((file_v1 ≡ file_v1) ⊎ (contains client_set file_v1 ≡ true)))
    × ((contains (intersect client_set server_set) file_v1 ≡ true)
        ↔ ((contains client_set file_v1 ≡ true) × (contains server_set file_v1 ≡ true)))
    × ((is_empty client_set ≡ true) ↔ ((t : Bytes) → contains client_set t ≡ false))
contains_iff_example =
    contains_iff (capability_text_v1 ∷ file_v1 ∷ capability_text_v1 ∷ []) client_set server_set
      file_v1 file_v1

-- The timer runs out, and then the handshake ends with the error that closing the socket causes.
abbrev late_callbacks : List Callback
late_callbacks = timer_ends false ∷ handshake_ends true ∷ timer_ends true ∷ []

run-Settled_example :
    (state : Shared ℕ) × (run_callbacks late_callbacks (started true 7) ≡ some state)
    × Settled true 7 (verdict false late_callbacks) state
run-Settled_example = run-Settled true 7 late_callbacks

-- "127.0.0.1".
abbrev loopback : Bytes
loopback = codes "127.0.0.1"

loopback_accepted : is_ipv4_literal loopback ≡ true
unfolding is_ipv4_literal ipv4_loop is_octet split_dot octet_value
loopback_accepted = refl

is_ipv4_literal_iff_example : (is_ipv4_literal loopback ≡ true) ↔ IsDottedQuad loopback
is_ipv4_literal_iff_example = is_ipv4_literal_iff loopback

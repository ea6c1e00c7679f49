-- ===== src/Pki.antt =====
-- The logic of tools/pki/src: `isIpv4Literal` of dev_ca.cpp.
pub mod Octets
pub mod Ipv4
use chat_hub.Prelude.{
  ℕ, zero, suc, ◌+◌, ◌-◌, ◌*◌, List, [], ◌∷◌, Bool, true, false, not, ◌&&◌, ◌||◌, ◌==◌, ltb, leb,
  if◌then◌else◌, Bytes, length, get_or, Option, none, some,
}

-- What `find('.')`, `substr(0, dot)` and `remove_prefix(dot + 1)` make of the rest: the octet in
-- front of the first dot, and what stands behind that dot.
unfoldable pub split_dot : Bytes → Bytes × Option Bytes
split_dot [] = ([], none)
split_dot (c ∷ rest) =
    let (octet, behind) = split_dot rest in
    if c == b'.' then ([], some rest) else (c ∷ octet, behind)

-- The inner loop: the value of the digits behind `value`, `none` where it returns false.
unfoldable pub octet_value : ℕ → Bytes → Option ℕ
octet_value value [] = some value
octet_value value (c ∷ octet) =
    let next = octet_value (value * 10 + (c - b'0')) octet in
    if ltb c b'0' || ltb b'9' c then none else next

at_most_255 : Option ℕ → Bool
at_most_255 none = false
at_most_255 (some value) = leb value 255

-- The tests on one octet.
unfoldable pub is_octet : Bytes → Bool
unfolding at_most_255
is_octet octet =
    if length octet == 0 || ltb 3 (length octet)
    then false
    else if ltb 1 (length octet) && get_or octet 0 0 == b'0'
    then false
    else at_most_255 (octet_value 0 octet)

behind_dot : (Bytes → Bool) → ℕ → Option Bytes → Bool
behind_dot next octets none = octets == 4
behind_dot next octets (some rest) = next rest

-- The outer loop, on fuel.
unfoldable pub ipv4_loop : ℕ → ℕ → Bytes → Bool
unfolding behind_dot
ipv4_loop zero octets rest = false
ipv4_loop (suc fuel) octets rest =
    let (octet, behind) = split_dot rest in
    if not (is_octet octet)
    then false
    else behind_dot (ipv4_loop fuel (octets + 1)) (octets + 1) behind

-- Each round but the last removes a dot, so that many rounds are enough.
unfoldable pub is_ipv4_literal : Bytes → Bool
is_ipv4_literal text = ipv4_loop (suc (length text)) 0 text

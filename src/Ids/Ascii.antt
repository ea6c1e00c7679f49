-- ===== src/Ids/Ascii.antt =====
-- `detail::toLowerAscii` of shared/include/chathub/contracts/ids.hpp, and the classes of characters
-- that its tests name. A `char` is its byte; the tests only accept ASCII, so the sign does not show.
use chat_hub.Prelude.{
  ℕ, ◌+◌, ◌-◌, [], ◌∷◌, ◌≡◌, ◌≤◌, ◌↔◌, ◌⊎◌, refl, Bool, true, ◌||◌, within, arith, if◌then◌else◌,
  Bytes, length, ap,
}

-- The lambdas `letter` and `alnum` of `isAccountName`.
unfoldable pub is_letter : ℕ → Bool
is_letter c = within b'A' b'Z' c || within b'a' b'z' c

unfoldable pub is_alnum : ℕ → Bool
unfolding is_letter
is_alnum c = is_letter c || within b'0' b'9' c

-- One character: `static_cast<char>(c - 'A' + 'a')`.
unfoldable pub lower_char : ℕ → ℕ
lower_char c = if within b'A' b'Z' c then c - b'A' + b'a' else c

unfoldable pub to_lower_ascii : Bytes → Bytes
unfolding lower_char
to_lower_ascii [] = []
to_lower_ascii (c ∷ text) = lower_char c ∷ to_lower_ascii text

-- The ASCII letters and digits, and a text in lower case: a capital letter becomes the letter 32
-- places behind it, and every other character stays as it is.
abbrev pub IsUpper : ℕ → Type 0
IsUpper c = (b'A' ≤ c) × (c ≤ b'Z')

abbrev pub IsLetter : ℕ → Type 0
IsLetter c = IsUpper c ⊎ ((b'a' ≤ c) × (c ≤ b'z'))

abbrev pub IsDigit : ℕ → Type 0
IsDigit c = (b'0' ≤ c) × (c ≤ b'9')

abbrev pub LowersTo : ℕ → ℕ → Type 0
LowersTo c d = (IsUpper c × (d ≡ c + 32)) ⊎ ((¬ IsUpper c) × (d ≡ c))

abbrev pub AreLowered : Bytes → Bytes → Type 0
AreLowered [] [] = Unit
AreLowered [] (d ∷ t) = ⊥
AreLowered (c ∷ s) [] = ⊥
AreLowered (c ∷ s) (d ∷ t) = LowersTo c d × AreLowered s t

pub is_letter_iff : (c : ℕ) → (is_letter c ≡ true) ↔ IsLetter c
unfolding is_letter
is_letter_iff c = (λ h. ground arith, λ h. ground arith)

pub is_alnum_iff : (c : ℕ) → (is_alnum c ≡ true) ↔ (IsLetter c ⊎ IsDigit c)
unfolding is_alnum is_letter
is_alnum_iff c = (λ h. ground arith, λ h. ground arith)

lower_char_iff : (c d : ℕ) → (d ≡ lower_char c) ↔ LowersTo c d
unfolding lower_char
lower_char_iff c d = (λ h. ground arith, λ h. ground arith)

pub to_lower_ascii_iff : (s t : Bytes) → (t ≡ to_lower_ascii s) ↔ AreLowered s t
unfolding to_lower_ascii
to_lower_ascii_iff [] [] = (λ h. tt, λ h. refl)
to_lower_ascii_iff [] (d ∷ t) = (λ h. cc, λ h. absurd h)
to_lower_ascii_iff (c ∷ s) [] = (λ h. cc, λ h. absurd h)
to_lower_ascii_iff (c ∷ s) (d ∷ t) = (
  λ h. ((lower_char_iff c d).0 (cc h), (to_lower_ascii_iff s t).0 (cc h)),
  λ h. cc ((lower_char_iff c d).1 h.0, (to_lower_ascii_iff s t).1 h.1),
)

-- Two texts that differ in the case of ASCII letters at most.
abbrev pub SameUpToCase : Bytes → Bytes → Type 0
SameUpToCase s t = to_lower_ascii s ≡ to_lower_ascii t

lower_char_idem : (c : ℕ) → lower_char (lower_char c) ≡ lower_char c
unfolding lower_char
lower_char_idem c = ground arith

pub to_lower_ascii_idem : (s : Bytes) → to_lower_ascii (to_lower_ascii s) ≡ to_lower_ascii s
unfolding to_lower_ascii
to_lower_ascii_idem [] = refl
to_lower_ascii_idem (c ∷ s) = ground (arith, lower_char_idem c, to_lower_ascii_idem s)

pub length-to_lower_ascii : (s : Bytes) → length (to_lower_ascii s) ≡ length s
unfolding to_lower_ascii
length-to_lower_ascii [] = refl
length-to_lower_ascii (c ∷ s) = ap ℕ.suc (length-to_lower_ascii s)

pub is_letter-lower : (c : ℕ) → is_letter (lower_char c) ≡ is_letter c
unfolding is_letter lower_char
is_letter-lower c = ground arith

pub is_alnum-lower : (c : ℕ) → is_alnum (lower_char c) ≡ is_alnum c
unfolding is_alnum lower_char
is_alnum-lower c = ground arith

-- ===== src/Ids/AccountName.antt =====
-- `detail::isAccountName` and `AccountName` of shared/include/chathub/contracts/ids.hpp.
use chat_hub.Prelude.{
  ◌≤◌, ◌≡◌, ◌↔◌, ◌⊎◌, refl, sym, ap, ◌∙◌, [], ◌∷◌, Bool, true, false, not, ◌||◌, ◌&&◌, ltb, arith,
  if◌then◌else◌, Bytes, length, Option, none, some, All, &&_iff,
}
use chat_hub.Ids.Ascii.{
  is_letter, is_alnum, to_lower_ascii, IsLetter, IsDigit, AreLowered, is_letter_iff, is_alnum_iff,
  to_lower_ascii_iff, to_lower_ascii_idem, length-to_lower_ascii, is_letter-lower, is_alnum-lower,
  SameUpToCase,
}

-- The loop over `name.substr(1)`.
unfoldable pub all_alnum : Bytes → Bool
all_alnum [] = true
all_alnum (c ∷ rest) = is_alnum c && all_alnum rest

starts_well : Bytes → Bool
unfolding all_alnum
starts_well [] = false
starts_well (c ∷ rest) = if not (is_letter c) then false else all_alnum rest

unfoldable pub is_account_name : Bytes → Bool
unfolding starts_well
is_account_name name =
    if ltb (length name) 4 || ltb 32 (length name) then false else starts_well name

pub record AccountName : Type 0 where
  pub value : Bytes

unfoldable pub parse : Bytes → Option AccountName
parse name =
    if not (is_account_name name) then none else some (record { value = to_lower_ascii name })

-- The rule for account names: 4 to 32 ASCII letters and digits, a letter first.
abbrev pub IsName : Bytes → Type 0
IsName [] = ⊥
IsName (c ∷ rest) =
    (4 ≤ length (c ∷ rest))
    × (length (c ∷ rest) ≤ 32)
    × IsLetter c
    × All (λ x. IsLetter x ⊎ IsDigit x) rest

all_alnum_iff : (s : Bytes) → (all_alnum s ≡ true) ↔ All (λ x. IsLetter x ⊎ IsDigit x) s
unfolding all_alnum
all_alnum_iff [] = (λ h. tt, λ h. refl)
all_alnum_iff (c ∷ s) = (
  λ h.
      let (one, others) = (&&_iff (is_alnum c) (all_alnum s)).0 h in
      ((is_alnum_iff c).0 one, (all_alnum_iff s).0 others),
  λ h. (&&_iff (is_alnum c) (all_alnum s)).1 ((is_alnum_iff c).1 h.0, (all_alnum_iff s).1 h.1),
)

is_account_name_iff : (name : Bytes) → (is_account_name name ≡ true) ↔ IsName name
unfolding is_account_name
is_account_name_iff [] = (λ h. cc, λ h. absurd h)
is_account_name_iff (c ∷ rest) = (
  λ h.
      let letter : is_letter c ≡ true = ground arith in
      let others : all_alnum rest ≡ true = ground arith in
      (ground arith, ground arith, (is_letter_iff c).0 letter, (all_alnum_iff rest).0 others),
  λ (least, most, letter, others).
      ground (arith, least, most, (is_letter_iff c).1 letter, (all_alnum_iff rest).1 others),
)

all_alnum-lower : (s : Bytes) → all_alnum (to_lower_ascii s) ≡ all_alnum s
unfolding all_alnum to_lower_ascii
all_alnum-lower [] = refl
all_alnum-lower (c ∷ s) = ground (arith, is_alnum-lower c, all_alnum-lower s)

starts_well-lower : (s : Bytes) → starts_well (to_lower_ascii s) ≡ starts_well s
unfolding starts_well to_lower_ascii
starts_well-lower [] = refl
starts_well-lower (c ∷ s) = ground (arith, is_letter-lower c, all_alnum-lower s)

is_account_name-lower : (s : Bytes) → is_account_name (to_lower_ascii s) ≡ is_account_name s
unfolding is_account_name
is_account_name-lower s = rw (length-to_lower_ascii s, starts_well-lower s)

parse-eq_some :
    (name : Bytes) (a : AccountName)
    → (parse name ≡ some a) ↔ ((is_account_name name ≡ true) × (a.value ≡ to_lower_ascii name))
unfolding parse
parse-eq_some name a = (λ h. (ground arith, ground arith), λ h. ground arith)

-- `AccountName::parse` succeeds exactly on 4 to 32 ASCII letters and digits with a letter first, and
-- the value that it stores is the name with its capital letters A to Z in lower case.
pub account_parse_iff :
    (name : Bytes) (a : AccountName)
    → (parse name ≡ some a) ↔ (IsName name × AreLowered name a.value)
account_parse_iff name a = (
  λ h.
      let (ok, lowered) = (parse-eq_some name a).0 h in
      ((is_account_name_iff name).0 ok, (to_lower_ascii_iff name a.value).0 lowered),
  λ (is_name, lowered).
      (parse-eq_some name a).1
        ((is_account_name_iff name).1 is_name, (to_lower_ascii_iff name a.value).1 lowered),
)

-- Names that differ in case alone have the same parse, so they name one account.
pub parse_case : (s t : Bytes) → SameUpToCase s t → parse s ≡ parse t
unfolding parse
parse_case s t h =
    let same : is_account_name s ≡ is_account_name t =
      sym (is_account_name-lower s) ∙ ap is_account_name h ∙ is_account_name-lower t in
    rw (same, h)

-- The stored value is a name itself, and parsing it again gives the same account name.
pub parse-value : (s : Bytes) (a : AccountName) → parse s ≡ some a → parse a.value ≡ some a
parse-value s a h =
    let lowered = ((parse-eq_some s a).0 h).1 in
    ap parse lowered ∙ parse_case (to_lower_ascii s) s (to_lower_ascii_idem s) ∙ h

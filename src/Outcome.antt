-- ===== src/Outcome.antt =====
-- `Error` and `Outcome` of shared/include/chathub/contracts/outcome.hpp, and the early return of a
-- function that has an `Outcome`.
use Prim.Native.String.{String}
use chat_hub.Prelude.{
  ◌-◌, [], ◌∷◌, ◌||◌, ◌==◌, within, if◌then◌else◌, Bytes, length, get_or, ◌≡◌, refl, Bool, true,
  false, Option, none, some,
}

-- The loop of `isSnakeCaseCode`.
unfoldable pub all_snake : Bytes → Bool
all_snake [] = true
all_snake (c ∷ code) =
    let rest = all_snake code in
    if c == b'_' || within b'0' b'9' c || within b'a' b'z' c then rest else false

-- `isSnakeCaseCode`: `front` and `back` are the first and the last byte.
unfoldable pub is_snake_case_code : Bytes → Bool
is_snake_case_code code =
    if length code == 0 || get_or code 0 0 == b'_' || get_or code (length code - 1) 0 == b'_'
    then false
    else all_snake code

pub record Error : Type 0 where
  pub code : String
  pub detail : String

-- `std::variant<T, Error>`.
pub data Outcome {ℓ} (A : Type ℓ) : Type ℓ where
  ok : A → Outcome A
  failed : Error → Outcome A

module _ {ℓ} {A : Type ℓ} where
  unfoldable pub is_ok : Outcome A → Bool
  is_ok (Outcome.ok a) = true
  is_ok (Outcome.failed e) = false

  -- `std::get<T>`, which throws where this is `none`.
  unfoldable pub value : Outcome A → Option A
  value (Outcome.ok a) = some a
  value (Outcome.failed e) = none

  -- `std::get<Error>`.
  unfoldable pub error : Outcome A → Option Error
  error (Outcome.ok a) = none
  error (Outcome.failed e) = some e

  -- Return the error where the optional value is missing.
  unfoldable pub require : Error → Option A → Outcome A
  require e none = Outcome.failed e
  require e (some a) = Outcome.ok a

  pub failed-ok : {e : Error} {a : A} → Outcome.failed e ≡ Outcome.ok a → ⊥
  failed-ok h = cc

  pub failed-code :
      {e e' : Error} → ◌≡◌ {A = Outcome A} (Outcome.failed e) (Outcome.failed e') → e.code ≡ e'.code
  failed-code h = cc

  pub require_inv : (e : Error) (o : Option A) {a : A} → require e o ≡ Outcome.ok a → o ≡ some a
  unfolding require
  require_inv e none h = cc
  require_inv e (some b) h = cc

  pub require_ok : (e : Error) {o : Option A} {a : A} → o ≡ some a → require e o ≡ Outcome.ok a
  unfolding require
  require_ok e h = rw h refl

module _ {ℓ κ} {A : Type ℓ} {B : Type κ} where
  -- Go on with the value, or return the error.
  unfoldable pub and_then : Outcome A → (A → Outcome B) → Outcome B
  and_then (Outcome.ok a) next = next a
  and_then (Outcome.failed e) next = Outcome.failed e

  pub and_then_inv :
      (o : Outcome A) (next : A → Outcome B) {b : B}
      → and_then o next ≡ Outcome.ok b
      → (a : A) × (o ≡ Outcome.ok a) × (next a ≡ Outcome.ok b)
  unfolding and_then
  and_then_inv (Outcome.ok a) next h = (a, refl, h)
  and_then_inv (Outcome.failed e) next h = cc

  pub and_then_ok :
      {o : Outcome A} (next : A → Outcome B) {a : A} {b : B}
      → o ≡ Outcome.ok a
      → next a ≡ Outcome.ok b
      → and_then o next ≡ Outcome.ok b
  unfolding and_then
  and_then_ok next h k = rw h k

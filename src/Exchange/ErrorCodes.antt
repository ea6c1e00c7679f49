-- ===== src/Exchange/ErrorCodes.antt =====
-- The error codes of the two decoders and `isSnakeCaseCode` of
-- shared/include/chathub/contracts/outcome.hpp.
use Prim.Native.String.{String}
use chat_hub.Prelude.{◌≡◌, refl, sym, subst, true, ◌⊎◌, inl, inr, Bytes, codes}
use chat_hub.ClientCodec.{QtLibrary, decode_hello_response}
use chat_hub.ClientCodec.Failures.{decode_hello_response_fails_iff}
use chat_hub.Codec.{JsonLibrary}
use chat_hub.Codec.Refusals.{IsFailure, Refuses}
use chat_hub.Ids.UuidId.{RequestId}
use chat_hub.Outcome.{all_snake, is_snake_case_code}
use chat_hub.ServerCodec.{decode_hello_request}
use chat_hub.ServerCodec.Failures.{decode_hello_request_fails_iff}

abbrev IsFormed : String → Type 0
IsFormed code = is_snake_case_code (codes code) ≡ true

invalid_json-IsFormed : IsFormed "invalid_json"
unfolding is_snake_case_code all_snake
invalid_json-IsFormed = refl

invalid_request_id-IsFormed : IsFormed "invalid_request_id"
unfolding is_snake_case_code all_snake
invalid_request_id-IsFormed = refl

invalid_request-IsFormed : IsFormed "invalid_request"
unfolding is_snake_case_code all_snake
invalid_request-IsFormed = refl

module _ {Root A : Type 0} (NoJson LacksRoot : Type 0) (HasRoot : Root → Type 0)
    (HasId : Root → RequestId → Type 0) (HasData : Root → A → Type 0) where
  Refuses-IsFormed :
      (out : RequestId) (code : String) (id : RequestId)
      → Refuses NoJson LacksRoot HasRoot HasId HasData out code id
      → IsFormed code
  Refuses-IsFormed out code id (inl h) = subst IsFormed (sym h.0) invalid_json-IsFormed
  Refuses-IsFormed out code id (inr (inl h)) = subst IsFormed (sym h.0) invalid_request_id-IsFormed
  Refuses-IsFormed out code id (inr (inr (inl h))) =
      subst IsFormed (sym h.0) invalid_request-IsFormed
  Refuses-IsFormed out code id (inr (inr (inr h))) =
      subst IsFormed (sym h.0) invalid_request-IsFormed

-- Every error code with which one of the two decoders fails passes `isSnakeCaseCode`.
pub decoders_fail-is_snake_case_code :
    {Value Object QtValue QtObject : Type 0} (json : JsonLibrary Value Object)
    (qt : QtLibrary QtValue QtObject) (text : Bytes) (out : RequestId) (code : String)
    (id : RequestId)
    → IsFailure (decode_hello_request json text out) code id
      ⊎ IsFailure (decode_hello_response qt text out) code id
    → is_snake_case_code (codes code) ≡ true
decoders_fail-is_snake_case_code json qt text out code id (inl failure) =
    Refuses-IsFormed _ _ _ _ _ out code id
      ((decode_hello_request_fails_iff json text out code id).0 failure)
decoders_fail-is_snake_case_code json qt text out code id (inr failure) =
    Refuses-IsFormed _ _ _ _ _ out code id
      ((decode_hello_response_fails_iff qt text out code id).0 failure)

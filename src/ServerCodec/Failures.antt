-- ===== src/ServerCodec/Failures.antt =====
-- With which error, and which request id, `decodeHelloRequest` fails.
use Prim.Native.String.{String}
use chat_hub.Prelude.{
  ◌≤◌, ◌<◌, ◌≡◌, ◌↔◌, refl, true, false, ltb, arith, Bool-cases, Option-cases, ◌⊎◌, inl, inr, Bytes,
  length, none, some,
}
use chat_hub.Codec.{JsonLibrary}
use chat_hub.Codec.Failures.{
  Fails, OnlyFails, require-OnlyFails, ok-OnlyFails, value_or_not, no_value-Fails,
  and_then-OnlyFails, capability_list-OnlyFails, text_field-OnlyFails,
}
use chat_hub.Codec.Refusals.{IsFailure, Refuses, fails_iff}
use chat_hub.Hello.{HelloRequest}
use chat_hub.Ids.UuidId.{RequestId}
use chat_hub.Outcome.{require, and_then}
use chat_hub.ServerCodec.{
  decode_fields, decode_data, decode_id, decode_root, with_id, with_root, decode_hello_request,
}
use chat_hub.ServerCodec.Accepts.{
  HasData, HasId, HasRoot, decode_data_iff, decode_id_iff, decode_root_iff,
  decode_hello_request_iff,
}

module _ {Value Object : Type 0} (json : JsonLibrary Value Object) where
  decode_data-OnlyFails : (root : Object) → OnlyFails "invalid_request" (decode_data json root)
  unfolding decode_data decode_fields
  decode_data-OnlyFails root = and_then-OnlyFails (require-OnlyFails _ _ _) (λ fields.
      and_then-OnlyFails (text_field-OnlyFails json _ _ _ _ fields) (λ version.
        and_then-OnlyFails (text_field-OnlyFails json _ _ _ _ fields) (λ platform.
          and_then-OnlyFails (capability_list-OnlyFails json fields) (λ set. ok-OnlyFails _ _))))

  decode_id-OnlyFails : (root : Object) → OnlyFails "invalid_request_id" (decode_id json root)
  unfolding decode_id
  decode_id-OnlyFails root =
      and_then-OnlyFails (require-OnlyFails _ _ _) (λ text. require-OnlyFails _ _ _)

  -- No request, or no id, can be read from the object.
  abbrev pub LacksData : Object → Type 0
  LacksData root = ¬ ((r : HelloRequest) × HasData json root r)

  abbrev pub LacksId : Object → Type 0
  LacksId root = ¬ ((id : RequestId) × HasId json root id)

  -- The text is too long, or it is the JSON of something other than an object.
  abbrev pub LacksRoot : Bytes → Type 0
  LacksRoot text =
      (65536 < length text)
      ⊎ ((length text ≤ 65536)
          × ((v : Value) × (json.parse text ≡ some v) × (json.as_object v ≡ none)))

  -- Why the text is refused, by the code of the error, and the id that is passed out.
  abbrev pub Refused : Bytes → RequestId → String → RequestId → Type 0
  Refused text out =
      Refuses ((length text ≤ 65536) × (json.parse text ≡ none)) (LacksRoot text)
        (HasRoot json text) (HasId json) (HasData json) out

  -- The text has a root object, is no JSON, or has something else.
  root_cases :
      (text : Bytes)
      → ((root : Object) × HasRoot json text root)
        ⊎ ((length text ≤ 65536) × (json.parse text ≡ none))
        ⊎ LacksRoot text
  root_cases text = elim (Bool-cases (ltb 65536 (length text))) [
    | inl long ↦ inr (inr (inl (ground arith)))
    | inr short ↦
        let size : length text ≤ 65536 = ground arith in
        elim (Option-cases (json.parse text)) [
          | inl no_json ↦ inr (inl (size, no_json))
          | inr (v, parsed) ↦ elim (Option-cases (json.as_object v)) [
            | inl no_object ↦ inr (inr (inr (size, (v, parsed, no_object))))
            | inr (root, is_object) ↦ inl (root, (size, (v, parsed, is_object)))
          ]
        ]
  ]

  no_json-Fails :
      (text : Bytes)
      → length text ≤ 65536
      → json.parse text ≡ none
      → Fails "invalid_json" (decode_root json text)
  unfolding decode_root require and_then
  no_json-Fails text size no_json =
      let short : ltb 65536 (length text) ≡ false = ground arith in
      ("hello_request 非合法 JSON", rw (short, no_json) refl)

  LacksRoot-Fails :
      (text : Bytes) → LacksRoot text → Fails "invalid_request" (decode_root json text)
  unfolding decode_root require and_then
  LacksRoot-Fails text (inl long) =
      let is_long : ltb 65536 (length text) ≡ true = ground arith in
      ("正文超过 64 KiB", rw is_long refl)
  LacksRoot-Fails text (inr (size, (v, parsed, no_object))) =
      let short : ltb 65536 (length text) ≡ false = ground arith in
      ("hello_request 根必须是对象", rw (short, parsed, no_object) refl)

  Refused-IsFailure :
      (text : Bytes) (out : RequestId) (code : String) (id : RequestId)
      → Refused text out code id
      → IsFailure (decode_hello_request json text out) code id
  unfolding decode_hello_request with_root with_id
  Refused-IsFailure text out code id (inl (named, kept, (size, no_json))) =
      let (detail, h) = no_json-Fails text size no_json in (detail, rw (named, kept, h) refl)
  Refused-IsFailure text out code id (inr (inl (named, kept, (root, has_root, lacks)))) =
      let (detail, h) = no_value-Fails (decode_id_iff json root) (decode_id-OnlyFails root) lacks in
      (detail, rw (named, kept, (decode_root_iff json text root).1 has_root, h) refl)
  Refused-IsFailure text out code id (inr (inr (inl (named, kept, lacks)))) =
      let (detail, h) = LacksRoot-Fails text lacks in (detail, rw (named, kept, h) refl)
  Refused-IsFailure text out code id (inr (inr (inr (named, (root, has_root, has_id, lacks))))) =
      let (detail, h) =
        no_value-Fails (decode_data_iff json root) (decode_data-OnlyFails root) lacks in
      (
        detail,
        rw
            (
              named,
              (decode_root_iff json text root).1 has_root,
              (decode_id_iff json root id).1 has_id,
              h,
            )
            refl,
      )

  -- `decodeHelloRequest` fails with `invalid_json` exactly on a text of at most 64 KiB that is no
  -- JSON, with `invalid_request_id` exactly on an object without a valid `request_id`, and with
  -- `invalid_request`, its only other code, exactly on a text above 64 KiB, on JSON that is no
  -- object, and on an object that has a valid `request_id` but no acceptable `data`. In this last
  -- case the id that is passed out is that of the object, so that the failure can be answered; in
  -- the others it is left as it was.
  pub decode_hello_request_fails_iff :
      (text : Bytes) (out : RequestId) (code : String) (id : RequestId)
      → IsFailure (decode_hello_request json text out) code id ↔ Refused text out code id
  decode_hello_request_fails_iff text out =
      fails_iff _ _ _ _ _ out (decode_hello_request json text out) (root_cases text)
        (λ root. value_or_not (decode_id_iff json root) (decode_id-OnlyFails root))
        (λ root. value_or_not (decode_data_iff json root) (decode_data-OnlyFails root))
        (λ id r has. (decode_hello_request_iff json text out id r).1 has)
        (Refused-IsFailure text out)

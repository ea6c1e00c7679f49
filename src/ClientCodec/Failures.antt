-- ===== src/ClientCodec/Failures.antt =====
-- With which error, and which request id, `decodeHelloResponse` fails.
use Prim.Native.String.{String}
use chat_hub.Prelude.{
  ◌≤◌, ◌<◌, ◌≡◌, ◌↔◌, refl, true, false, ltb, arith, Bool-cases, Option-cases, ◌⊎◌, inl, inr, Bytes,
  length, none, some,
}
use chat_hub.ClientCodec.{
  QtLibrary, server_time, read_uint32, decode_response_fields, decode_response_data,
  decode_response_id, parse_document, decode_response_root, with_response_id, with_response_root,
  decode_hello_response,
}
use chat_hub.ClientCodec.Accepts.{
  HasDocument, HasResponseId, HasResponse, document_iff, response_id_iff, response_data_iff,
  decode_hello_response_iff,
}
use chat_hub.Codec.{kind_of}
use chat_hub.Codec.Failures.{
  Fails, OnlyFails, require-OnlyFails, ok-OnlyFails, value_or_not, no_value-Fails,
  and_then-OnlyFails, capability_list-OnlyFails, text_field-OnlyFails,
}
use chat_hub.Codec.Refusals.{IsFailure, Refuses, fails_iff}
use chat_hub.Ids.UuidId.{RequestId}
use chat_hub.Outcome.{require, and_then}

module _ {Value Object : Type 0} (qt : QtLibrary Value Object) where
  server_time-OnlyFails : (fields : Object) → OnlyFails "invalid_request" (server_time qt fields)
  unfolding server_time
  server_time-OnlyFails fields =
      and_then-OnlyFails (require-OnlyFails _ _ _) (λ time. require-OnlyFails _ _ _)

  read_uint32-OnlyFails :
      (fields : Object) (key : String) → OnlyFails "invalid_request" (read_uint32 qt fields key)
  unfolding read_uint32
  read_uint32-OnlyFails fields key = require-OnlyFails _ _ _

  response_fields-OnlyFails :
      (fields : Object) → OnlyFails "invalid_request" (decode_response_fields qt fields)
  unfolding decode_response_fields
  response_fields-OnlyFails fields =
      and_then-OnlyFails (text_field-OnlyFails qt.json _ _ _ _ fields) (λ version.
        and_then-OnlyFails (server_time-OnlyFails fields) (λ time.
          and_then-OnlyFails (read_uint32-OnlyFails fields _) (λ max_json.
            and_then-OnlyFails (read_uint32-OnlyFails fields _) (λ max_text.
              and_then-OnlyFails (read_uint32-OnlyFails fields _) (λ heartbeat_idle.
                and_then-OnlyFails (read_uint32-OnlyFails fields _) (λ timeout.
                  and_then-OnlyFails (capability_list-OnlyFails qt.json fields)
                    (λ set. ok-OnlyFails _ _)))))))

  response_data-OnlyFails :
      (root : Object) → OnlyFails "invalid_request" (decode_response_data qt root)
  unfolding decode_response_data
  response_data-OnlyFails root =
      and_then-OnlyFails (require-OnlyFails _ _ _)
        (λ is_ok. and_then-OnlyFails (require-OnlyFails _ _ _) response_fields-OnlyFails)

  response_id-OnlyFails :
      (root : Object) → OnlyFails "invalid_request_id" (decode_response_id qt root)
  unfolding decode_response_id
  response_id-OnlyFails root =
      and_then-OnlyFails (require-OnlyFails _ _ _) (λ text. require-OnlyFails _ _ _)

  -- The text has at most 64 KiB, and it is no JSON or the null document.
  abbrev pub LacksJson : Bytes → Type 0
  LacksJson text =
      (length text ≤ 65536)
      × ((qt.json.parse text ≡ none)
          ⊎ ((v : Value) × (qt.json.parse text ≡ some v) × (qt.is_null v ≡ true)))

  -- The text is too long, or it is the JSON of something other than an object.
  abbrev pub LacksDocument : Bytes → Type 0
  LacksDocument text =
      (65536 < length text)
      ⊎ ((length text ≤ 65536)
          × ((v : Value) × (qt.json.parse text ≡ some v)
              × (qt.is_null v ≡ false)
              × (qt.json.as_object v ≡ none)))

  -- Why the text is refused, by the code of the error, and the id that is passed out.
  abbrev pub ResponseRefused : Bytes → RequestId → String → RequestId → Type 0
  ResponseRefused text out =
      Refuses (LacksJson text) (LacksDocument text) (HasDocument qt text) (HasResponseId qt)
        (HasResponse qt) out

  -- The text has a root object, is no JSON, or has something else.
  document_cases :
      (text : Bytes)
      → ((root : Object) × HasDocument qt text root) ⊎ LacksJson text ⊎ LacksDocument text
  document_cases text = elim (Bool-cases (ltb 65536 (length text))) [
    | inl long ↦ inr (inr (inl (ground arith)))
    | inr short ↦
        let size : length text ≤ 65536 = ground arith in
        elim (Option-cases (qt.json.parse text)) [
          | inl no_json ↦ inr (inl (size, inl no_json))
          | inr (v, parsed) ↦ elim (Bool-cases (qt.is_null v)) [
            | inl null ↦ inr (inl (size, inr (v, parsed, null)))
            | inr present ↦ elim (Option-cases (qt.json.as_object v)) [
              | inl no_object ↦ inr (inr (inr (size, (v, parsed, present, no_object))))
              | inr (root, is_object) ↦ inl (root, (size, (v, parsed, present, is_object)))
            ]
          ]
        ]
  ]

  LacksJson-parse_document : (text : Bytes) → LacksJson text → parse_document qt text ≡ none
  unfolding parse_document kind_of
  LacksJson-parse_document text (size, inl no_json) = rw no_json refl
  LacksJson-parse_document text (size, inr (v, parsed, null)) = rw (parsed, null) refl

  LacksJson-Fails :
      (text : Bytes) → LacksJson text → Fails "invalid_json" (decode_response_root qt text)
  unfolding decode_response_root require and_then
  LacksJson-Fails text lacks =
      let short : ltb 65536 (length text) ≡ false = ground (arith, lacks.0) in
      ("hello_response 非合法 JSON", rw (short, LacksJson-parse_document text lacks) refl)

  LacksDocument-Fails :
      (text : Bytes) → LacksDocument text → Fails "invalid_request" (decode_response_root qt text)
  unfolding decode_response_root parse_document kind_of require and_then
  LacksDocument-Fails text (inl long) =
      let is_long : ltb 65536 (length text) ≡ true = ground arith in
      ("正文超过 64 KiB", rw is_long refl)
  LacksDocument-Fails text (inr (size, (v, parsed, present, no_object))) =
      let short : ltb 65536 (length text) ≡ false = ground arith in
      ("hello_response 根必须是对象", rw (short, parsed, present, no_object) refl)

  ResponseRefused-IsFailure :
      (text : Bytes) (out : RequestId) (code : String) (id : RequestId)
      → ResponseRefused text out code id
      → IsFailure (decode_hello_response qt text out) code id
  unfolding decode_hello_response with_response_root with_response_id
  ResponseRefused-IsFailure text out code id (inl (named, kept, lacks)) =
      let (detail, h) = LacksJson-Fails text lacks in (detail, rw (named, kept, h) refl)
  ResponseRefused-IsFailure text out code id (inr (inl (named, kept, (root, has_root, lacks)))) =
      let (detail, h) =
        no_value-Fails (response_id_iff qt root) (response_id-OnlyFails root) lacks in
      (detail, rw (named, kept, (document_iff qt text root).1 has_root, h) refl)
  ResponseRefused-IsFailure text out code id (inr (inr (inl (named, kept, lacks)))) =
      let (detail, h) = LacksDocument-Fails text lacks in (detail, rw (named, kept, h) refl)
  ResponseRefused-IsFailure text out code id
        (inr (inr (inr (named, (root, has_root, has_id, lacks))))) =
      let (detail, h) =
        no_value-Fails (response_data_iff qt root) (response_data-OnlyFails root) lacks in
      (
        detail,
        rw (named, (document_iff qt text root).1 has_root, (response_id_iff qt root id).1 has_id, h)
            refl,
      )

  -- `decodeHelloResponse` fails with `invalid_json` exactly on a text of at most 64 KiB that is no
  -- JSON or a null document, with `invalid_request_id` exactly on an object without a valid
  -- `request_id`, and with `invalid_request`, its only other code, exactly on a text above 64 KiB,
  -- on JSON that is no object, and on an object that has a valid `request_id` but no acceptable `ok`
  -- and `data`. In this last case the id that is passed out is that of the object; in the others it
  -- is left as it was.
  pub decode_hello_response_fails_iff :
      (text : Bytes) (out : RequestId) (code : String) (id : RequestId)
      → IsFailure (decode_hello_response qt text out) code id ↔ ResponseRefused text out code id
  decode_hello_response_fails_iff text out =
      fails_iff _ _ _ _ _ out (decode_hello_response qt text out) (document_cases text)
        (λ root. value_or_not (response_id_iff qt root) (response_id-OnlyFails root))
        (λ root. value_or_not (response_data_iff qt root) (response_data-OnlyFails root))
        (λ id r has. (decode_hello_response_iff qt text out id r).1 has)
        (ResponseRefused-IsFailure text out)

-- ===== src/ClientCodec/Accepts.antt =====
-- Which texts `decodeHelloResponse` accepts.
use chat_hub.Prelude.{
  ◌≤◌, ◌≡◌, ◌↔◌, inl, inr, refl, ap, ◌∙◌, Bool, true, false, ltb, arith, if◌then◌else◌, Bool-cases,
  Bytes, length, none, some,
}
use chat_hub.ClientCodec.{
  QtLibrary, decode_response_data, decode_response_id, parse_document, decode_response_root,
  is_true, with_response_id, with_response_root, decode_hello_response,
}
use chat_hub.Codec.{string_at, object_at, kind_of}
use chat_hub.Hello.{HelloResponse}
use chat_hub.Ids.UuidId.{RequestId, parse}
use chat_hub.Outcome.{
  Outcome, ok, failed, failed-ok, require_inv, and_then_inv, and_then_ok, require_ok,
}
use chat_hub.ClientCodec.Parameters.{
  HasResponseFields, kind_of_inv, kind_of_found, response_fields_iff,
}

module _ {Value Object : Type 0} (qt : QtLibrary Value Object) where
  -- `ok` is true, and `data` holds the fields of the response.
  abbrev pub HasResponse : Object → HelloResponse → Type 0
  HasResponse root r =
      (kind_of qt.as_bool (qt.json.find root "ok") ≡ some true)
      × ((fields : Object) × (object_at qt.json root "data" ≡ some fields)
          × HasResponseFields qt fields r)

  is_true_inv : (b u : Bool) → is_true qt b ≡ some u → b ≡ true
  unfolding is_true
  is_true_inv true u h = refl
  is_true_inv false u h = cc

  is_true_of : is_true qt true ≡ some true
  unfolding is_true
  is_true_of = refl

  pub response_data_iff :
      (root : Object) (r : HelloResponse)
      → (decode_response_data qt root ≡ ok r) ↔ HasResponse root r
  unfolding decode_response_data
  response_data_iff root r = (
    λ h.
        let (u, e, h1) = and_then_inv _ _ h in
        let (b, found, true_b) = kind_of_inv (is_true qt) _ (require_inv _ _ e) in
        let (fields, found', h2) = and_then_inv _ _ h1 in
        (
          found ∙ ap some (is_true_inv b u true_b),
          (fields, require_inv _ _ found', (response_fields_iff qt fields r).0 h2),
        ),
    λ (found, (fields, found', has)).
        and_then_ok _ (require_ok _ (kind_of_found (is_true qt) found is_true_of))
          (and_then_ok _ (require_ok _ found') ((response_fields_iff qt fields r).1 has)),
  )

  abbrev pub HasResponseId : Object → RequestId → Type 0
  HasResponseId root id =
      (text : Bytes) × (string_at qt.json root "request_id" ≡ some text) × (parse text ≡ some id)

  pub response_id_iff :
      (root : Object) (id : RequestId)
      → (decode_response_id qt root ≡ ok id) ↔ HasResponseId root id
  unfolding decode_response_id
  response_id_iff root id = (
    λ h.
        let (text, found, h') = and_then_inv _ _ h in
        (text, require_inv _ _ found, require_inv _ _ h'),
    λ (text, found, parsed). and_then_ok _ (require_ok _ found) (require_ok _ parsed),
  )

  -- The text is a document of 64 KiB at most that is not null and has this object as its root.
  abbrev pub HasDocument : Bytes → Object → Type 0
  HasDocument text root =
      (length text ≤ 65536)
      × ((v : Value) × (qt.json.parse text ≡ some v)
          × (qt.is_null v ≡ false)
          × (qt.json.as_object v ≡ some root))

  not_null_inv :
      (v w : Value)
      → (if qt.is_null v then none else some v) ≡ some w
      → (qt.is_null v ≡ false) × (v ≡ w)
  not_null_inv v w h = elim (Bool-cases (qt.is_null v)) [
    | inl null ↦ cc (rw null at h)
    | inr present ↦ (present, some_injective (rw present at h))
  ]
    where
      some_injective : {a b : Value} → some a ≡ some b → a ≡ b
      some_injective e = cc

  pub document_iff :
      (text : Bytes) (root : Object)
      → (decode_response_root qt text ≡ ok root) ↔ HasDocument text root
  unfolding decode_response_root parse_document
  document_iff text root = (
    λ h. elim (Bool-cases (ltb 65536 (length text))) [
      | inl long ↦ cc (rw long at h)
      | inr short ↦
          let (w, e, h') = and_then_inv _ _ (rw short at h) in
          let (v, parsed, present) = kind_of_inv _ _ (require_inv _ _ e) in
          let (not_null, same) = not_null_inv v w present in
          (ground arith, (v, parsed, not_null, ap qt.json.as_object same ∙ require_inv _ _ h'))
    ],
    λ (size, (v, parsed, not_null, object)).
        let short : ltb 65536 (length text) ≡ false = ground arith in
        rw short (
          and_then_ok _ (require_ok _ (kind_of_found _ parsed (rw not_null refl)))
            (require_ok _ object)),
  )

  with_response_id_inv :
      (root : Object) (out id : RequestId) (o : Outcome RequestId) (r : HelloResponse)
      → with_response_id qt root out o ≡ (ok r, id)
      → (o ≡ ok id) × (decode_response_data qt root ≡ ok r)
  unfolding with_response_id
  with_response_id_inv root out id (failed e) r h = absurd (failed-ok (ap (λ p. p.0) h))
  with_response_id_inv root out id (ok i) r h = (ap (λ p. ok (p.1)) h, ap (λ p. p.0) h)

  with_response_root_inv :
      (out id : RequestId) (o : Outcome Object) (r : HelloResponse)
      → with_response_root qt out o ≡ (ok r, id)
      → (root : Object) × (o ≡ ok root)
        × (decode_response_id qt root ≡ ok id)
        × (decode_response_data qt root ≡ ok r)
  unfolding with_response_root
  with_response_root_inv out id (failed e) r h = absurd (failed-ok (ap (λ p. p.0) h))
  with_response_root_inv out id (ok root) r h =
      let (i, d) = with_response_id_inv root out id (decode_response_id qt root) r h in
      (root, refl, i, d)

  -- `decodeHelloResponse` succeeds exactly on a JSON object of at most 64 KiB with a valid
  -- `request_id`, with `ok` true and a `data` object that holds a `server_version` of 1 to 32 bytes,
  -- an integral `server_time` from 0 to 2^53-1, four integers below 2^32 and at most 16
  -- `capabilities` of 1 to 64 bytes each; the result has these values, and the parsed id is passed
  -- out.
  pub decode_hello_response_iff :
      (text : Bytes) (out id : RequestId) (r : HelloResponse)
      → (decode_hello_response qt text out ≡ (ok r, id))
        ↔ ((root : Object) × HasDocument text root × HasResponseId root id × HasResponse root r)
  unfolding decode_hello_response with_response_root with_response_id
  decode_hello_response_iff text out id r = (
    λ h.
        let (root, e, i, d) = with_response_root_inv out id (decode_response_root qt text) r h in
        (
          root,
          (document_iff text root).0 e,
          (response_id_iff root id).0 i,
          (response_data_iff root r).0 d,
        ),
    λ (root, document, has_id, has).
        rw ((document_iff text root).1 document, (response_id_iff root id).1 has_id)
          (ap (λ o. (o, id)) ((response_data_iff root r).1 has)),
  )

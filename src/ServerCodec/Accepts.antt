-- ===== src/ServerCodec/Accepts.antt =====
-- Which texts `decodeHelloRequest` accepts.
use chat_hub.Prelude.{
  ◌≤◌, ◌≡◌, ◌↔◌, refl, subst, ap, false, ltb, arith, Bool-cases, inl, inr, Bytes, length, some,
}
use chat_hub.Ids.UuidId.{RequestId, parse}
use chat_hub.Outcome.{
  Outcome, ok, failed, failed-ok, require_inv, and_then_inv, and_then_ok, require_ok,
}
use chat_hub.ServerCodec.{
  decode_fields, decode_data, decode_id, decode_root, with_id, with_root, decode_hello_request,
}
use chat_hub.Codec.{JsonLibrary, string_at, object_at}
use chat_hub.Codec.Fields.{
  IsLimited, HasCapabilities, capability_list_iff, text_field_iff, ok_injective,
}
use chat_hub.Hello.{HelloRequest}

module _ {Value Object : Type 0} (json : JsonLibrary Value Object) where
  -- The fields that `data` has to hold.
  abbrev pub HasFields : Object → HelloRequest → Type 0
  HasFields fields r =
      ((string_at json fields "client_version" ≡ some r.client_version)
        × IsLimited 32 r.client_version)
      × ((string_at json fields "platform" ≡ some r.platform) × IsLimited 16 r.platform)
      × HasCapabilities json fields r.capabilities

  decode_fields_iff :
      (fields : Object) (r : HelloRequest) → (decode_fields json fields ≡ ok r) ↔ HasFields fields r
  unfolding decode_fields
  decode_fields_iff fields r = (
    λ h.
        let (v, e1, h1) = and_then_inv _ _ h in
        let (p, e2, h2) = and_then_inv _ _ h1 in
        let (set, e3, h3) = and_then_inv _ _ h2 in
        subst (HasFields fields) (ok_injective h3) (
          (text_field_iff json _ _ _ _ fields v).0 e1,
          (text_field_iff json _ _ _ _ fields p).0 e2,
          (capability_list_iff json fields set).0 e3,
        ),
    λ (version, platform, set).
        and_then_ok _ ((text_field_iff json _ _ _ _ fields r.client_version).1 version) (
          and_then_ok _ ((text_field_iff json _ _ _ _ fields r.platform).1 platform)
            (and_then_ok _ ((capability_list_iff json fields r.capabilities).1 set) refl)),
  )

  abbrev pub HasData : Object → HelloRequest → Type 0
  HasData root r =
      (fields : Object) × (object_at json root "data" ≡ some fields) × HasFields fields r

  pub decode_data_iff :
      (root : Object) (r : HelloRequest) → (decode_data json root ≡ ok r) ↔ HasData root r
  unfolding decode_data
  decode_data_iff root r = (
    λ h.
        let (fields, found, h') = and_then_inv _ _ h in
        (fields, require_inv _ _ found, (decode_fields_iff fields r).0 h'),
    λ (fields, found, has). and_then_ok _ (require_ok _ found) ((decode_fields_iff fields r).1 has),
  )

  abbrev pub HasId : Object → RequestId → Type 0
  HasId root id =
      (text : Bytes) × (string_at json root "request_id" ≡ some text) × (parse text ≡ some id)

  pub decode_id_iff :
      (root : Object) (id : RequestId) → (decode_id json root ≡ ok id) ↔ HasId root id
  unfolding decode_id
  decode_id_iff root id = (
    λ h.
        let (text, found, h') = and_then_inv _ _ h in
        (text, require_inv _ _ found, require_inv _ _ h'),
    λ (text, found, parsed). and_then_ok _ (require_ok _ found) (require_ok _ parsed),
  )

  -- The text is the JSON of this object, in 64 KiB at most.
  abbrev pub HasRoot : Bytes → Object → Type 0
  HasRoot text root =
      (length text ≤ 65536)
      × ((v : Value) × (json.parse text ≡ some v) × (json.as_object v ≡ some root))

  pub decode_root_iff :
      (text : Bytes) (root : Object) → (decode_root json text ≡ ok root) ↔ HasRoot text root
  unfolding decode_root
  decode_root_iff text root = (
    λ h. elim (Bool-cases (ltb 65536 (length text))) [
      | inl long ↦ cc (rw long at h)
      | inr short ↦
          let (v, parsed, h') = and_then_inv _ _ (rw short at h) in
          (ground arith, (v, require_inv _ _ parsed, require_inv _ _ h'))
    ],
    λ (size, (v, parsed, object)).
        let short : ltb 65536 (length text) ≡ false = ground arith in
        rw short (and_then_ok _ (require_ok _ parsed) (require_ok _ object)),
  )

  with_id_inv :
      (root : Object) (out id : RequestId) (o : Outcome RequestId) (r : HelloRequest)
      → with_id json root out o ≡ (ok r, id)
      → (o ≡ ok id) × (decode_data json root ≡ ok r)
  unfolding with_id
  with_id_inv root out id (failed e) r h = absurd (failed-ok (ap (λ p. p.0) h))
  with_id_inv root out id (ok i) r h = (ap (λ p. ok (p.1)) h, ap (λ p. p.0) h)

  with_root_inv :
      (out id : RequestId) (o : Outcome Object) (r : HelloRequest)
      → with_root json out o ≡ (ok r, id)
      → (root : Object) × (o ≡ ok root)
        × (decode_id json root ≡ ok id)
        × (decode_data json root ≡ ok r)
  unfolding with_root
  with_root_inv out id (failed e) r h = absurd (failed-ok (ap (λ p. p.0) h))
  with_root_inv out id (ok root) r h =
      let (i, d) = with_id_inv root out id (decode_id json root) r h in (root, refl, i, d)

  -- `decodeHelloRequest` succeeds exactly on a JSON object of at most 64 KiB with a valid
  -- `request_id` and a `data` object that holds a `client_version` of 1 to 32 bytes, a `platform` of
  -- 1 to 16 bytes and at most 16 `capabilities` of 1 to 64 bytes each; the result has these values,
  -- the capabilities as a set, and the parsed id is passed out.
  pub decode_hello_request_iff :
      (text : Bytes) (out id : RequestId) (r : HelloRequest)
      → (decode_hello_request json text out ≡ (ok r, id))
        ↔ ((root : Object) × HasRoot text root × HasId root id × HasData root r)
  unfolding decode_hello_request with_root with_id
  decode_hello_request_iff text out id r = (
    λ h.
        let (root, e, i, d) = with_root_inv out id (decode_root json text) r h in
        (
          root,
          (decode_root_iff text root).0 e,
          (decode_id_iff root id).0 i,
          (decode_data_iff root r).0 d,
        ),
    λ (root, has_root, has_id, has_data).
        rw ((decode_root_iff text root).1 has_root, (decode_id_iff root id).1 has_id)
          (ap (λ o. (o, id)) ((decode_data_iff root r).1 has_data)),
  )

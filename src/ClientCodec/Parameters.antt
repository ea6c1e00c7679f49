-- ===== src/ClientCodec/Parameters.antt =====
-- Which `data` objects `decodeHelloResponse` accepts.
use Prim.Native.String.{String}
use chat_hub.Prelude.{ℕ, ◌≤◌, ◌≡◌, ◌↔◌, refl, sym, ap, subst, pos, Option, none, some}
use chat_hub.ClientCodec.{QtLibrary, number_at, server_time, read_uint32, decode_response_fields}
use chat_hub.Codec.{string_at, kind_of}
use chat_hub.Codec.Fields.{
  IsLimited, HasCapabilities, capability_list_iff, text_field_iff, ok_injective,
}
use chat_hub.Double.{Double, read_integer}
use chat_hub.Double.Integers.{IsInteger, read_integer_iff}
use chat_hub.Hello.{HelloResponse}
use chat_hub.Outcome.{ok, require_inv, and_then_inv, and_then_ok, require_ok}

pub kind_of_inv :
    {A B : Type 0} (kind : A → Option B) (o : Option A) {b : B}
    → kind_of kind o ≡ some b
    → (a : A) × (o ≡ some a) × (kind a ≡ some b)
unfolding kind_of
kind_of_inv kind none h = cc
kind_of_inv kind (some a) h = (a, refl, h)

pub kind_of_found :
    {A B : Type 0} (kind : A → Option B) {o : Option A} {a : A} {b : B}
    → o ≡ some a
    → kind a ≡ some b
    → kind_of kind o ≡ some b
unfolding kind_of
kind_of_found kind h k = rw h k

module _ {Value Object : Type 0} (qt : QtLibrary Value Object) where
  -- The field is a number: an integer from 0 to `max`.
  abbrev pub HasNumber : ℕ → Object → String → ℕ → Type 0
  HasNumber max fields key n =
      (d : Double) × (kind_of qt.as_double (qt.json.find fields key) ≡ some d)
      × (IsInteger d n × (n ≤ max))

  server_time_iff :
      (fields : Object) (n : ℕ)
      → (server_time qt fields ≡ ok n) ↔ HasNumber 9007199254740991 fields "server_time" n
  unfolding server_time
  server_time_iff fields n = (
    λ h.
        let (d, found, h') = and_then_inv _ _ h in
        (d, require_inv _ _ found, (read_integer_iff 9007199254740991 d n).0 (require_inv _ _ h')),
    λ (d, found, value).
        and_then_ok _ (require_ok _ found)
          (require_ok _ ((read_integer_iff 9007199254740991 d n).1 value)),
  )

  read_uint32_iff :
      (fields : Object) (key : String) (n : ℕ)
      → (read_uint32 qt fields key ≡ ok n) ↔ HasNumber 4294967295 fields key n
  unfolding read_uint32 number_at
  read_uint32_iff fields key n = (
    λ h.
        let (d, found, value) = kind_of_inv (read_integer 4294967295) _ (require_inv _ _ h) in
        (d, found, (read_integer_iff 4294967295 d n).0 value),
    λ (d, found, value).
        require_ok _ (kind_of_found _ found ((read_integer_iff 4294967295 d n).1 value)),
  )

  -- The fields that `data` has to hold.
  abbrev pub HasResponseFields : Object → HelloResponse → Type 0
  HasResponseFields fields r =
      ((string_at qt.json fields "server_version" ≡ some r.server_version)
        × IsLimited 32 r.server_version)
      × ((time : ℕ) × HasNumber 9007199254740991 fields "server_time" time
          × (r.server_time ≡ pos time))
      × HasNumber 4294967295 fields "max_json" r.max_json
      × HasNumber 4294967295 fields "max_text" r.max_text
      × HasNumber 4294967295 fields "heartbeat_idle" r.heartbeat_idle
      × HasNumber 4294967295 fields "timeout" r.timeout
      × HasCapabilities qt.json fields r.capabilities

  pub response_fields_iff :
      (fields : Object) (r : HelloResponse)
      → (decode_response_fields qt fields ≡ ok r) ↔ HasResponseFields fields r
  unfolding decode_response_fields
  response_fields_iff fields r = (
    λ h.
        let (v, e1, h1) = and_then_inv _ _ h in
        let (t, e2, h2) = and_then_inv _ _ h1 in
        let (a, e3, h3) = and_then_inv _ _ h2 in
        let (b, e4, h4) = and_then_inv _ _ h3 in
        let (c, e5, h5) = and_then_inv _ _ h4 in
        let (d, e6, h6) = and_then_inv _ _ h5 in
        let (set, e7, h7) = and_then_inv _ _ h6 in
        subst (HasResponseFields fields) (ok_injective h7) (
          (text_field_iff qt.json _ _ _ _ fields v).0 e1,
          (t, (server_time_iff fields t).0 e2, refl),
          (read_uint32_iff fields "max_json" a).0 e3,
          (read_uint32_iff fields "max_text" b).0 e4,
          (read_uint32_iff fields "heartbeat_idle" c).0 e5,
          (read_uint32_iff fields "timeout" d).0 e6,
          (capability_list_iff qt.json fields set).0 e7,
        ),
    λ (version, (t, time, same_time), a, b, c, d, set).
        and_then_ok _ ((text_field_iff qt.json _ _ _ _ fields r.server_version).1 version) (
          and_then_ok _ ((server_time_iff fields t).1 time) (
            and_then_ok _ ((read_uint32_iff fields "max_json" r.max_json).1 a) (
              and_then_ok _ ((read_uint32_iff fields "max_text" r.max_text).1 b) (
                and_then_ok _ ((read_uint32_iff fields "heartbeat_idle" r.heartbeat_idle).1 c) (
                  and_then_ok _ ((read_uint32_iff fields "timeout" r.timeout).1 d) (
                    and_then_ok _ ((capability_list_iff qt.json fields r.capabilities).1 set)
                      (ap (λ z. ok (record r { server_time = z })) (sym same_time)))))))),
  )

-- ===== src/Frame/Header.antt =====
-- The eight bytes of a frame header, as `encodeFrame` writes them and as the decoder reads them.
use chat_hub.Prelude.{
  ℕ, ◌+◌, ◌*◌, ◌/◌, ◌%◌, ◌^◌, ◌≤◌, ◌<◌, ◌≡◌, refl, ◌∙◌, ◌∷◌, true, arith, Option, none, some, Bytes,
  length,
}
use chat_hub.Prelude.Bits.{bit_or_fields, bit_and_byte}
use chat_hub.Protocol.{find_protocol}
use chat_hub.Protocol.Descriptor.{ProtocolDescriptor}
use chat_hub.Protocol.Types.{ProtocolType}
use chat_hub.Utf8.{is_valid_utf8}
use chat_hub.Frame.{big_endian, encode_with, encode_frame}

-- The shifted bytes do not overlap, so joining them adds them up.
pub big_endian_value :
    (a b c d : ℕ)
    → a < 256
    → b < 256
    → c < 256
    → d < 256
    → big_endian a b c d ≡ a * 2 ^ 24 + b * 2 ^ 16 + c * 2 ^ 8 + d
unfolding big_endian
big_endian_value a b c d ha hb hc hd =
    let top : a * 2 ^ 24 % 2 ^ 32 ≡ a * 2 ^ 24 = omega arith in
    let second : b * 2 ^ 16 % 2 ^ 32 ≡ b * 2 ^ 16 = omega arith in
    let third : c * 2 ^ 8 % 2 ^ 32 ≡ c * 2 ^ 8 = omega arith in
    let two : a * 2 ^ 24 + b * 2 ^ 16 ≡ (a * 256 + b) * 2 ^ 16 = omega arith in
    let three : (a * 256 + b) * 2 ^ 16 + c * 2 ^ 8 ≡ ((a * 256 + b) * 256 + c) * 2 ^ 8 =
      omega arith in
    rw (top, second, third)
      (rw (bit_or_fields 24 a (b * 2 ^ 16) (omega arith)) (
        rw two (
          rw (bit_or_fields 16 (a * 256 + b) (c * 2 ^ 8) (omega arith))
            (rw three (bit_or_fields 8 ((a * 256 + b) * 256 + c) d (omega arith) ∙ omega arith)))))

-- The header that `encodeFrame` writes for a body of `n` bytes.
abbrev pub written : ProtocolType → ℕ → Bytes → Bytes
written t n body =
    0x43
    ∷ 0x48
    ∷ 1
    ∷ (t % 256)
    ∷ (n / 2 ^ 24 % 256)
    ∷ (n / 2 ^ 16 % 256)
    ∷ (n / 2 ^ 8 % 256)
    ∷ (n % 256)
    ∷ body

-- What `encodeFrame` accepts.
pub record IsSendable (type : ProtocolType) (body : Bytes) : Type 0 where
  pub descriptor : ProtocolDescriptor
  pub registered : find_protocol type ≡ some descriptor
  pub fits : length body ≤ descriptor.max_body
  pub valid : is_valid_utf8 body ≡ true

encode_with-written :
    (t : ProtocolType) (body : Bytes) (d : ProtocolDescriptor)
    → length body ≤ d.max_body
    → is_valid_utf8 body ≡ true
    → encode_with t body (some d) ≡ some (written t (length body) body)
unfolding encode_with
encode_with-written t body d fits valid = simp bit_and_byte (ground arith)

pub encode_frame-written :
    (t : ProtocolType) (body : Bytes)
    → IsSendable t body
    → encode_frame t body ≡ some (written t (length body) body)
unfolding encode_frame
encode_frame-written t body s =
    rw s.registered (encode_with-written t body s.descriptor s.fits s.valid)

encode_with-IsSendable :
    (t : ProtocolType) (body w : Bytes) (o : Option ProtocolDescriptor)
    → find_protocol t ≡ o
    → encode_with t body o ≡ some w
    → IsSendable t body
unfolding encode_with
encode_with-IsSendable t body w none e h = cc
encode_with-IsSendable t body w (some d) e h = record {
  descriptor = d;
  registered = e;
  fits = ground arith;
  valid = ground arith;
}

pub encode_frame-IsSendable :
    (t : ProtocolType) (body w : Bytes) → encode_frame t body ≡ some w → IsSendable t body
unfolding encode_frame
encode_frame-IsSendable t body w h = encode_with-IsSendable t body w (find_protocol t) refl h

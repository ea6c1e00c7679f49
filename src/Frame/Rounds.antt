-- ===== src/Frame/Rounds.antt =====
-- One round of `decodeAvailableFrames` on each form that the unread bytes can have.
use chat_hub.Prelude.{
  ℕ, zero, suc, ◌+◌, ◌-◌, ◌≤◌, ◌<◌, ◌≡◌, refl, sym, ap, ◌∙◌, [], ◌∷◌, ◌++◌, Bool, true, false,
  Option, none, some, arith, Bytes, length, get_or, take, drop, length-drop,
}
use chat_hub.Protocol.Descriptor.{ProtocolDescriptor}
use chat_hub.Protocol.Types.{ProtocolType}
use chat_hub.Utf8.{is_valid_utf8}
use chat_hub.Frame.{
  FrameErrorKind, FrameDecoder, set_failure, check_descriptor, parse_and_validate_header,
  decode_body, after_header, decode_round,
}
use chat_hub.Frame.Stream.{Header, accepted, refused, described, header}

get_or-add : (xs : Bytes) (m i : ℕ) → get_or xs (m + i) 0 ≡ get_or (drop m xs) i 0
get_or-add xs zero i = ap (λ k. get_or xs k 0) (omega arith)
get_or-add [] (suc m) i = refl
get_or-add (x ∷ xs) (suc m) i =
    let shifted : suc m + i ≡ suc (m + i) = omega arith in rw shifted (get_or-add xs m i)

drop-nil : (n : ℕ) → drop {A = ℕ} n [] ≡ []
drop-nil zero = refl
drop-nil (suc n) = refl

pub drop-add : (xs : Bytes) (m n : ℕ) → drop (m + n) xs ≡ drop n (drop m xs)
drop-add xs zero n = ap (λ k. drop k xs) (omega arith)
drop-add [] (suc m) n = drop-nil (suc m + n) ∙ sym (drop-nil n)
drop-add (x ∷ xs) (suc m) n =
    let shifted : suc m + n ≡ suc (m + n) = omega arith in rw shifted (drop-add xs m n)

-- The bytes that the decoder has not consumed.
abbrev pub unread : FrameDecoder → Bytes
unread d = drop d.consumed_prefix_size d.input_buffer

-- What `parse_and_validate_header` makes of a header.
abbrev pub on_header : FrameDecoder → Header → FrameDecoder × Bool
on_header d (accepted type n) = (record d { frame_type = type; body_length = n }, true)
on_header d (refused kind) = (set_failure d kind, false)

check-described :
    (d : FrameDecoder) (n : ℕ) (o : Option ProtocolDescriptor)
    → check_descriptor d n o ≡ on_header d (described n o)
unfolding check_descriptor described
check-described d n none = refl
check-described d n (some descriptor) = ground arith

pub parse-header :
    (d : FrameDecoder) → parse_and_validate_header d ≡ on_header d (header (unread d))
unfolding parse_and_validate_header header
parse-header d = simp (get_or-add, check-described) (ground arith)

-- The round's tests on lengths look at the unread bytes.
pub length-unread :
    (d : FrameDecoder) → length d.input_buffer - d.consumed_prefix_size ≡ length (unread d)
length-unread d = sym (length-drop d.consumed_prefix_size d.input_buffer)

module _ (d : FrameDecoder) where
  pub body_cut : length (unread d) < 8 + d.body_length → decode_body d ≡ (d, false)
  unfolding decode_body
  body_cut h = ground (arith, length-unread d)

  -- The body that `decode_body` takes out.
  abbrev pub body_of : Bytes
  body_of = take d.body_length (drop 8 (unread d))

  body_bytes : take d.body_length (drop (d.consumed_prefix_size + 8) d.input_buffer) ≡ body_of
  body_bytes = ap (take d.body_length) (drop-add d.input_buffer d.consumed_prefix_size 8)

  pub body_invalid :
      8 + d.body_length ≤ length (unread d)
      → is_valid_utf8 body_of ≡ false
      → decode_body d ≡ (
        record d { has_pending_header = false; failed = true; error = FrameErrorKind.invalid_utf8 },
        false,
      )
  unfolding decode_body
  body_invalid h v = ground (arith, length-unread d, body_bytes)

  pub body_valid :
      8 + d.body_length ≤ length (unread d)
      → is_valid_utf8 body_of ≡ true
      → decode_body d ≡ (
        record d {
          has_pending_header = false;
          decoded_frames =
              d.decoded_frames ++ (record { type = d.frame_type; body = body_of } ∷ []);
          consumed_prefix_size = d.consumed_prefix_size + (8 + d.body_length);
        },
        true,
      )
  unfolding decode_body
  body_valid h v = ground (arith, length-unread d, body_bytes)

  pub header_cut :
      d.has_pending_header ≡ false → length (unread d) < 8 → decode_round d ≡ (d, false)
  unfolding decode_round
  header_cut p h = ground (arith, length-unread d)

  pub round_pending : d.has_pending_header ≡ true → decode_round d ≡ decode_body d
  unfolding decode_round
  round_pending p = ground arith

  pub round_refused :
      (kind : FrameErrorKind)
      → d.has_pending_header ≡ false
      → 8 ≤ length (unread d)
      → header (unread d) ≡ refused kind
      → decode_round d ≡ (set_failure d kind, false)
  unfolding decode_round after_header
  round_refused kind p h r = ground (arith, length-unread d, parse-header d)

  pub round_accepted :
      (type : ProtocolType) (n : ℕ)
      → d.has_pending_header ≡ false
      → 8 ≤ length (unread d)
      → header (unread d) ≡ accepted type n
      → decode_round d
        ≡ decode_body (record d { frame_type = type; body_length = n; has_pending_header = true })
  unfolding decode_round after_header
  round_accepted type n p h r = ground (arith, length-unread d, parse-header d)

-- ===== src/Frame/Canonical.antt =====
-- What the decoder delivers is what `encodeFrame` would have written.
use chat_hub.Prelude.{
  ℕ, zero, suc, ◌+◌, ◌*◌, ◌/◌, ◌%◌, ◌^◌, ◌≤◌, ◌<◌, ◌≡◌, refl, sym, ap, subst, ◌∙◌, List, [], ◌∷◌,
  ◌++◌, true, arith, some, Bytes, IsByte, All, length, get_or, take, drop, ◌⊎◌, inl, inr,
  append_assoc, All-drop, take-append-drop, length-take, length-drop,
}
use chat_hub.Protocol.{find_protocol}
use chat_hub.Protocol.Registry.{found_byte}
use chat_hub.Protocol.Types.{ProtocolType}
use chat_hub.Utf8.{is_valid_utf8}
use chat_hub.Frame.{Frame, FrameErrorKind, FrameDecoder, new_decoder, big_endian, encode_frame}
use chat_hub.Frame.Header.{big_endian_value, written, IsSendable, encode_frame-written}
use chat_hub.Frame.RoundTrip.{encode_frames}
use chat_hub.Frame.Rounds.{drop-add}
use chat_hub.Frame.Session.{Call, fed, run, delivered, run_reads_stream}
use chat_hub.Frame.Feeding.{Shows}
use chat_hub.Frame.Stream.{
  accepted, header, Ending, waiting, broken, Stream, cut_header, bad_header, cut_body, bad_body,
  frame, read,
}
use chat_hub.Frame.Accepted.{header-IsAccepted}

-- The first eight bytes, one by one.
eight_bytes :
    (bs : Bytes)
    → 8 ≤ length bs
    → bs
      ≡ get_or bs 0 0
        ∷ get_or bs 1 0
        ∷ get_or bs 2 0
        ∷ get_or bs 3 0
        ∷ get_or bs 4 0
        ∷ get_or bs 5 0
        ∷ get_or bs 6 0
        ∷ get_or bs 7 0
        ∷ drop 8 bs
eight_bytes (a ∷ b ∷ c ∷ d ∷ e ∷ f ∷ g ∷ h ∷ rest) long = refl
eight_bytes _ long = absurd (omega arith)

get_or-byte : (bs : Bytes) (i : ℕ) → All IsByte bs → get_or bs i 0 < 256
get_or-byte [] i h = omega arith
get_or-byte (b ∷ bs) zero h = h.0
get_or-byte (b ∷ bs) (suc i) h = get_or-byte bs i h.1

-- The four length bytes are those of the number that they stand for.
length_bytes :
    (a b c d n : ℕ)
    → a < 256
    → b < 256
    → c < 256
    → d < 256
    → big_endian a b c d ≡ n
    → (n / 2 ^ 24 % 256 ≡ a) × (n / 2 ^ 16 % 256 ≡ b) × (n / 2 ^ 8 % 256 ≡ c) × (n % 256 ≡ d)
length_bytes a b c d n ha hb hc hd e =
    let value : n ≡ a * 2 ^ 24 + b * 2 ^ 16 + c * 2 ^ 8 + d =
      sym e ∙ big_endian_value a b c d ha hb hc hd in
    (omega arith, omega arith, omega arith, omega arith)

-- A frame that the decoder accepts is sendable, and its bytes are those that `encodeFrame` writes.
frame_written :
    (bs : Bytes) (t : ProtocolType) (n : ℕ)
    → All IsByte bs
    → header bs ≡ accepted t n
    → 8 + n ≤ length bs
    → is_valid_utf8 (take n (drop 8 bs)) ≡ true
    → let body = take n (drop 8 bs) in
      IsSendable t body × (bs ≡ written t (length body) body ++ drop (8 + n) bs)
frame_written bs t n bytes h fits valid =
    let body = take n (drop 8 bs) in
    let acc = header-IsAccepted bs t n h in
    let (same, byte) = found_byte (get_or bs 3 0) acc.descriptor acc.registered in
    let type_is : get_or bs 3 0 ≡ t = sym same ∙ acc.type in
    let size : length body ≡ n = length-take n (drop 8 bs) (omega (arith, length-drop 8 bs)) in
    let (l4, l5, l6, l7) =
      length_bytes (get_or bs 4 0) (get_or bs 5 0) (get_or bs 6 0) (get_or bs 7 0) n
        (get_or-byte bs 4 bytes) (get_or-byte bs 5 bytes) (get_or-byte bs 6 bytes)
        (get_or-byte bs 7 bytes) acc.size in
    let type_byte : t % 256 ≡ get_or bs 3 0 = omega arith in
    let rest : body ++ drop (8 + n) bs ≡ drop 8 bs =
      ap (λ r. body ++ r) (drop-add bs 8 n) ∙ take-append-drop n (drop 8 bs) in
    (
      record {
        descriptor = acc.descriptor;
        registered = subst (λ x. find_protocol x ≡ some acc.descriptor) type_is acc.registered;
        fits = omega (arith, acc.fits);
        valid = valid;
      },
      eight_bytes bs (omega arith)
          ∙ sym (
              rw size
                (cc (acc.magic.0, acc.magic.1, acc.version, type_byte, l4, l5, l6, l7, rest))),
    )

encode_frames-cons :
    (f : Frame) (fs : List Frame) (v u : Bytes)
    → encode_frame f.type f.body ≡ some v
    → encode_frames fs ≡ some u
    → encode_frames (f ∷ fs) ≡ some (v ++ u)
unfolding encode_frames
encode_frames-cons f fs v u one others = rw (one, others)

-- What is left behind the frames: the bytes that the decoder waits with, or those that broke it.
abbrev Left : Ending → Bytes → Type 0
Left (waiting r) rest = r ≡ rest
Left (broken kind) rest = Unit {0}

abbrev Split : Bytes → List Frame → Ending → Type 0
Split bs fs e =
    (w : Bytes) × (rest : Bytes) × (encode_frames fs ≡ some w) × (bs ≡ w ++ rest) × Left e rest

Split-nil : (bs : Bytes) (e : Ending) → Left e bs → Split bs [] e
unfolding encode_frames
Split-nil bs e left = ([], bs, refl, refl, left)

Stream-Split :
    {bs : Bytes} {fs : List Frame} {e : Ending} → All IsByte bs → Stream bs fs e → Split bs fs e
Stream-Split bytes (cut_header {bs} short) = Split-nil bs (waiting bs) refl
Stream-Split bytes (bad_header {bs} {kind} long h) = Split-nil bs (broken kind) tt
Stream-Split bytes (cut_body {bs} long h short) = Split-nil bs (waiting bs) refl
Stream-Split bytes (bad_body {bs} h fits invalid) =
    Split-nil bs (broken FrameErrorKind.invalid_utf8) tt
Stream-Split bytes (frame {bs} {type} {n} {fs} {e} h fits valid s) =
    let (sendable, shape) = frame_written bs type n bytes h fits valid in
    let body = take n (drop 8 bs) in
    let (w, rest, others, split, left) = Stream-Split (All-drop IsByte (8 + n) bs bytes) s in
    let v = written type (length body) body in
    (
      v ++ w,
      rest,
      encode_frames-cons (record { type = type; body = body }) fs v w
          (encode_frame-written type body sendable) others,
      shape ∙ ap (λ r. v ++ r) split ∙ sym (append_assoc v w rest),
      left,
    )

kept_bytes :
    (d : FrameDecoder) (e : Ending) (rest : Bytes)
    → Shows d e
    → Left e rest
    → (d.failed ≡ true) ⊎ (d.input_buffer ≡ rest)
kept_bytes d (waiting r) rest shows left = inr (shows.2 ∙ left)
kept_bytes d (broken kind) rest shows left = inl shows.0

-- Whatever bytes a new decoder is fed, the frames that it delivers are frames that `encodeFrame`
-- accepts, and the bytes that `encodeFrame` writes for them, one behind the other, start the bytes
-- fed; what is left is what the decoder keeps in its buffer, unless it has failed.
pub encode-decode :
    (calls : List Call)
    → All IsByte (fed calls)
    → (w : Bytes) × (rest : Bytes) × (encode_frames (delivered (run new_decoder calls)) ≡ some w)
      × (fed calls ≡ w ++ rest)
      × (((run new_decoder calls).0.failed ≡ true)
          ⊎ ((run new_decoder calls).0.input_buffer ≡ rest))
encode-decode calls bytes =
    let (fs, e, s) = read (fed calls) in
    let (frames, shows) = run_reads_stream calls s in
    let (w, rest, encoded, split, left) = Stream-Split bytes s in
    (
      w,
      rest,
      ap encode_frames frames ∙ encoded,
      split,
      kept_bytes (run new_decoder calls).0 e rest shows left,
    )

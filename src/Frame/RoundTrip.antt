-- ===== src/Frame/RoundTrip.antt =====
-- `encodeFrame` and the decoder are inverse to one another, for one frame and for streams of them.
use chat_hub.Prelude.{
  append-nil, ℕ, ◌+◌, ◌*◌, ◌/◌, ◌%◌, ◌^◌, ◌≤◌, ◌≡◌, refl, sym, ap, subst, ◌∙◌, ◌↔◌, List, [], ◌∷◌,
  ◌++◌, false, arith, Option, none, some, Bytes, length, take, take-append, drop-append,
  length-append,
}
use chat_hub.Protocol.Descriptor.{ProtocolDescriptor}
use chat_hub.Protocol.Policy.{type_limits}
use chat_hub.Protocol.Registry.{found_byte, find_protocol_iff}
use chat_hub.Protocol.Types.{ProtocolType}
use chat_hub.Frame.{Frame, new_decoder, encode_frame}
use chat_hub.Frame.Header.{
  big_endian_value, written, IsSendable, encode_frame-written, encode_frame-IsSendable,
}
use chat_hub.Frame.Rounds.{drop-add}
use chat_hub.Frame.Session.{Call, fed, run, delivered, run_reads_stream}
use chat_hub.Frame.Stream.{accepted, described, header, Ending, waiting, Stream, cut_header, frame}

-- `encodeFrame` succeeds exactly for a registered type, a body within the limit of that type and
-- valid UTF-8, and then writes magic, version, type, the length in four bytes and the body.
pub encode_frame_iff :
    (t : ProtocolType) (body w : Bytes)
    → (encode_frame t body ≡ some w) ↔ (IsSendable t body × (w ≡ written t (length body) body))
encode_frame_iff t body w = (
  λ h.
      let sendable = encode_frame-IsSendable t body w h in
      (sendable, some_injective (sym h ∙ encode_frame-written t body sendable)),
  λ (sendable, e). encode_frame-written t body sendable ∙ ap some (sym e),
)
  where
    some_injective : {v u : Bytes} → some v ≡ some u → v ≡ u
    some_injective e = cc

described_fits :
    (n : ℕ) (d : ProtocolDescriptor) → n ≤ d.max_body → described n (some d) ≡ accepted d.type n
unfolding described
described_fits n d h = ground arith

-- The decoder reads the header that `encodeFrame` has written.
header-written :
    (t : ProtocolType) (body rest : Bytes)
    → IsSendable t body
    → length body ≤ 65536
    → header (written t (length body) (body ++ rest)) ≡ accepted t (length body)
unfolding header
header-written t body rest s small =
    let (same, byte) = found_byte t s.descriptor s.registered in
    let n = length body in
    let type_byte : t % 256 ≡ t = omega arith in
    let decoded =
      big_endian_value (n / 2 ^ 24 % 256) (n / 2 ^ 16 % 256) (n / 2 ^ 8 % 256) (n % 256)
        (omega arith) (omega arith) (omega arith) (omega arith) in
    let value : n / 2 ^ 24 % 256 * 2 ^ 24
          + n / 2 ^ 16 % 256 * 2 ^ 16
          + n / 2 ^ 8 % 256 * 2 ^ 8
          + n % 256
        ≡ n =
      omega arith in
    rw (type_byte, decoded, value, s.registered, described_fits n s.descriptor s.fits)
      (ap (λ u. accepted u n) same)

pub sendable_small : {t : ProtocolType} {body : Bytes} → IsSendable t body → length body ≤ 65536
sendable_small {t} s =
    let (reg, _) = (find_protocol_iff t s.descriptor).0 s.registered in
    omega (arith, s.fits, (type_limits s.descriptor reg).0)

behind : Option Bytes → Option Bytes → Option Bytes
behind (some w) (some ws) = some (w ++ ws)
behind _ _ = none

-- The frames that a sender writes one behind the other; `none` if one of them is refused.
unfoldable pub encode_frames : List Frame → Option Bytes
unfolding behind
encode_frames [] = some []
encode_frames (f ∷ fs) = behind (encode_frame f.type f.body) (encode_frames fs)

pub encode_frames_one :
    (f : Frame) (w : Bytes) → encode_frame f.type f.body ≡ some w → encode_frames (f ∷ []) ≡ some w
unfolding encode_frames
encode_frames_one f w h = rw h (ap some (append-nil w))

behind-some :
    (o p : Option Bytes) {w : Bytes}
    → behind o p ≡ some w
    → (v : Bytes) × (u : Bytes) × (o ≡ some v) × (p ≡ some u) × (w ≡ v ++ u)
unfolding behind
behind-some (some v) (some u) h = (v, u, refl, refl, ground arith)
behind-some none p h = cc
behind-some (some v) none h = cc

-- A written frame is the first frame of a stream that starts with it.
stream_of_written :
    (t : ProtocolType) (body rest : Bytes) {fs : List Frame} {e : Ending}
    → IsSendable t body
    → Stream rest fs e
    → Stream (written t (length body) body ++ rest) (record { type = t; body = body } ∷ fs) e
stream_of_written t body rest {fs} {e} s next =
    let n = length body in
    let body_read : take n (body ++ rest) ≡ body = take-append body rest in
    subst (λ b. Stream (written t n body ++ rest) (record { type = t; body = b } ∷ fs) e) body_read
      (frame (header-written t body rest s (sendable_small s))
        (omega (arith, length-append body rest)) (rw body_read s.valid)
        (subst (λ r. Stream r fs e)
          (sym (drop-add (written t n (body ++ rest)) 8 n ∙ drop-append body rest)) next))

encode_frames-Stream :
    (fs : List Frame) (w : Bytes) → encode_frames fs ≡ some w → Stream w fs (waiting [])
unfolding encode_frames
encode_frames-Stream [] w h =
    let empty : [] ≡ w = ground arith in
    subst (λ v. Stream v [] (waiting [])) empty (cut_header (omega arith))
encode_frames-Stream (f ∷ fs) w h =
    let (v, u, one, others, split) =
      behind-some (encode_frame f.type f.body) (encode_frames fs) h in
    let (sendable, shape) = (encode_frame_iff f.type f.body v).0 one in
    subst (λ x. Stream x (f ∷ fs) (waiting [])) (ap (λ y. y ++ u) (sym shape) ∙ sym split)
      (stream_of_written f.type f.body u sendable (encode_frames-Stream fs u others))

-- Frames that `encodeFrame` has written one behind the other come out of a new decoder again, all
-- of them, unchanged and in order, however the bytes are cut into chunks and whenever the frames are
-- popped; and the decoder then works, with an empty buffer.
pub decode-encode :
    (fs : List Frame) (calls : List Call)
    → encode_frames fs ≡ some (fed calls)
    → (delivered (run new_decoder calls) ≡ fs)
      × ((run new_decoder calls).0.failed ≡ false)
      × ((run new_decoder calls).0.input_buffer ≡ [])
decode-encode fs calls h =
    let (frames, shows) = run_reads_stream calls (encode_frames-Stream fs (fed calls) h) in
    (frames, shows.0, shows.2)

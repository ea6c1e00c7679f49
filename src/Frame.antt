-- ===== src/Frame.antt =====
-- `Frame`, `FrameErrorKind`, `FrameDecoder` and `encodeFrame` of
-- shared/include/chathub/contracts/frame.hpp. A method that changes the decoder returns the new
-- record; `size_t` values stay far below their bound and are plain numbers.
pub mod Stream
mod Rounds
mod Append
pub mod Refines
pub mod Feeding
pub mod Session
pub mod Header
pub mod RoundTrip
mod Accepted
pub mod Canonical
pub mod Bounds
pub mod Drain
pub mod Termination
use chat_hub.Prelude.{
  ℕ, zero, suc, ◌+◌, ◌-◌, ◌*◌, ◌/◌, ◌%◌, ◌^◌, List, [], ◌∷◌, ◌++◌, Bool, true, false, not, ◌&&◌,
  ◌||◌, Option, none, some, ◌==◌, ltb, leb, if◌then◌else◌, Bytes, length, get_or, take, drop,
  bit_and, bit_or,
}
use chat_hub.Protocol.{find_protocol}
use chat_hub.Protocol.Types.{ProtocolType, protocol_error}
use chat_hub.Protocol.Descriptor.{ProtocolDescriptor}
use chat_hub.Utf8.{is_valid_utf8}

abbrev pub frame_magic_high : ℕ
frame_magic_high = 0x43

abbrev pub frame_magic_low : ℕ
frame_magic_low = 0x48

abbrev pub protocol_version : ℕ
protocol_version = 1

abbrev pub frame_header_size : ℕ
frame_header_size = 8

pub record Frame : Type 0 where
  pub type : ProtocolType
  pub body : Bytes

pub data FrameErrorKind : Type 0 where
  decoder_failed bad_magic bad_version unknown_type body_too_large invalid_utf8 : FrameErrorKind

pub record FrameDecoder : Type 0 where
  pub input_buffer : Bytes
  pub consumed_prefix_size : ℕ
  pub body_length : ℕ
  pub frame_type : ProtocolType
  pub has_pending_header : Bool
  pub failed : Bool
  pub error : FrameErrorKind
  pub decoded_frames : List Frame

-- A decoder as it is constructed.
abbrev pub new_decoder : FrameDecoder
new_decoder = record {
  input_buffer = [];
  consumed_prefix_size = 0;
  body_length = 0;
  frame_type = protocol_error;
  has_pending_header = false;
  failed = false;
  error = FrameErrorKind.decoder_failed;
  decoded_frames = [];
}

abbrev pub set_failure : FrameDecoder → FrameErrorKind → FrameDecoder
set_failure d kind = record d { failed = true; error = kind }

-- `input_buffer_[offset + i]`.
abbrev pub byte_at : FrameDecoder → ℕ → ℕ
byte_at d i = get_or d.input_buffer (d.consumed_prefix_size + i) 0

-- The four bytes shifted and joined, in `uint32_t`.
unfoldable pub big_endian : ℕ → ℕ → ℕ → ℕ → ℕ
big_endian a b c d =
    bit_or (bit_or (bit_or (a * 2 ^ 24 % 2 ^ 32) (b * 2 ^ 16 % 2 ^ 32)) (c * 2 ^ 8 % 2 ^ 32)) d

-- The checks behind the version: the type is registered and its body fits.
check_descriptor : FrameDecoder → ℕ → Option ProtocolDescriptor → FrameDecoder × Bool
check_descriptor d length none = (set_failure d FrameErrorKind.unknown_type, false)
check_descriptor d length (some descriptor) =
    if ltb descriptor.max_body length
    then (set_failure d FrameErrorKind.body_too_large, false)
    else (record d { frame_type = descriptor.type; body_length = length }, true)

-- `parseAndValidateHeader(consumed_prefix_size_)`, its only call.
unfoldable pub parse_and_validate_header : FrameDecoder → FrameDecoder × Bool
unfolding check_descriptor
parse_and_validate_header d =
    if not (byte_at d 0 == frame_magic_high) || not (byte_at d 1 == frame_magic_low)
    then (set_failure d FrameErrorKind.bad_magic, false)
    else if not (byte_at d 2 == protocol_version)
    then (set_failure d FrameErrorKind.bad_version, false)
    else check_descriptor d (big_endian (byte_at d 4) (byte_at d 5) (byte_at d 6) (byte_at d 7))
        (find_protocol (byte_at d 3))

-- A round of the loop behind the header: the body, if it is all there. The flag says that the loop
-- goes on.
unfoldable pub decode_body : FrameDecoder → FrameDecoder × Bool
decode_body d =
    if ltb (length d.input_buffer - d.consumed_prefix_size) (frame_header_size + d.body_length)
    then (d, false)
    else (let body =
          take d.body_length (drop (d.consumed_prefix_size + frame_header_size) d.input_buffer) in
        let d' = record d { has_pending_header = false } in
        if not (is_valid_utf8 body) then (set_failure d' FrameErrorKind.invalid_utf8, false) else (
          record d' {
            decoded_frames = d.decoded_frames ++ (record { type = d.frame_type; body = body } ∷ []);
            consumed_prefix_size = d.consumed_prefix_size + (frame_header_size + d.body_length);
          },
          true,
        ))

-- Behind `parseAndValidateHeader`: a refused header ends the loop, any other is pending.
after_header : FrameDecoder × Bool → FrameDecoder × Bool
unfolding decode_body
after_header (d, true) = decode_body (record d { has_pending_header = true })
after_header (d, false) = (d, false)

-- A round of the loop of `decodeAvailableFrames`.
unfoldable pub decode_round : FrameDecoder → FrameDecoder × Bool
unfolding after_header parse_and_validate_header
decode_round d =
    if not d.has_pending_header
    then (if ltb (length d.input_buffer - d.consumed_prefix_size) frame_header_size
        then (d, false)
        else after_header (parse_and_validate_header d))
    else decode_body d

unfoldable pub go_on : (FrameDecoder → FrameDecoder) → FrameDecoder × Bool → FrameDecoder
go_on rest (d, true) = rest d
go_on rest (d, false) = d

-- `decodeAvailableFrames`, on fuel.
unfoldable pub decode_loop : ℕ → FrameDecoder → FrameDecoder
unfolding go_on
decode_loop zero d = d
decode_loop (suc fuel) d = go_on (decode_loop fuel) (decode_round d)

-- A round that goes on consumes a frame header at least, so that many rounds are enough.
unfoldable pub decode_available_frames : FrameDecoder → FrameDecoder
decode_available_frames d = decode_loop (suc (length d.input_buffer)) d

unfoldable pub discard_consumed_bytes : FrameDecoder → FrameDecoder
discard_consumed_bytes d =
    if ltb 0 d.consumed_prefix_size
    then record d {
      input_buffer = drop d.consumed_prefix_size d.input_buffer;
      consumed_prefix_size = 0;
    }
    else d

unfoldable pub feed_bytes : FrameDecoder → Bytes → FrameDecoder
feed_bytes d bytes =
    if d.failed
    then d
    else discard_consumed_bytes
        (decode_available_frames (record d { input_buffer = d.input_buffer ++ bytes }))

pop_front : FrameDecoder → List Frame → FrameDecoder × Option Frame
pop_front d [] = (d, none)
pop_front d (f ∷ rest) = (record d { decoded_frames = rest }, some f)

-- `tryPopFrame`: the frame that it writes to `out`, `none` where it returns false.
unfoldable pub try_pop_frame : FrameDecoder → FrameDecoder × Option Frame
unfolding pop_front
try_pop_frame d = if d.failed then (d, none) else pop_front d d.decoded_frames

-- `encodeFrame` behind the lookup of the descriptor.
encode_with : ProtocolType → Bytes → Option ProtocolDescriptor → Option Bytes
encode_with type body none = none
encode_with type body (some descriptor) =
    if ltb descriptor.max_body (length body) || not (is_valid_utf8 body)
    then none
    else some (
        frame_magic_high
        ∷ frame_magic_low
        ∷ protocol_version
        ∷ (type % 256)
        ∷ (bit_and (length body / 2 ^ 24) 0xff % 256)
        ∷ (bit_and (length body / 2 ^ 16) 0xff % 256)
        ∷ (bit_and (length body / 2 ^ 8) 0xff % 256)
        ∷ (bit_and (length body) 0xff % 256)
        ∷ body)

unfoldable pub encode_frame : ProtocolType → Bytes → Option Bytes
unfolding encode_with
encode_frame type body = encode_with type body (find_protocol type)

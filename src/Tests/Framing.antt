-- ===== src/Tests/Framing.antt =====
-- The decoder on a stream of three frames in awkward chunks, and `isValidUtf8` on short texts.
use chat_hub.Prelude.{
  ℕ, ◌+◌, ◌<◌, ◌≡◌, refl, ◌↔◌, ◌⊎◌, ◌++◌, List, [], ◌∷◌, Bool, true, false, some, arith, ltb, ◌&&◌,
  Bytes, IsByte, All, length,
}
use chat_hub.Frame.{
  Frame, FrameDecoder, FrameErrorKind, new_decoder, decode_available_frames, encode_frame,
  set_failure,
}
use chat_hub.Frame.Bounds.{SameState, buffer_bounded, run_same_bytes}
use chat_hub.Frame.Drain.{popping, popping-encode}
use chat_hub.Frame.Termination.{Runs, decode_available_frames-Runs}
use chat_hub.Frame.Canonical.{encode-decode}
use chat_hub.Frame.Feeding.{Shows}
use chat_hub.Frame.Header.{IsSendable, written}
use chat_hub.Frame.RoundTrip.{encode_frames, encode_frame_iff, decode-encode}
use chat_hub.Frame.Session.{Call, feeds, pops, fed, run, delivered, run_reads_stream, run_failed}
use chat_hub.Frame.Stream.{Ending, Stream, read}
use chat_hub.Protocol.{find_in, find_protocol}
use chat_hub.Protocol.Types.{heartbeat, hello_request}
use chat_hub.Utf8.{is_valid_utf8}
use chat_hub.Utf8.Accepts.{is_valid_utf8_iff}
use chat_hub.Utf8.Scalars.{IsScalar, encode}

abbrev heartbeat_frame : Frame
heartbeat_frame = record { type = heartbeat; body = [] }

abbrev hello_frame : Frame
hello_frame = record { type = hello_request; body = (b'{' ∷ b'}' ∷ []) }

are_bytes : Bytes → Bool
are_bytes [] = true
are_bytes (b ∷ bs) = ltb b 256 && are_bytes bs

are_bytes_sound : (bs : Bytes) → are_bytes bs ≡ true → All IsByte bs
unfolding are_bytes
are_bytes_sound [] h = tt
are_bytes_sound (b ∷ bs) h = (ground arith, are_bytes_sound bs (ground arith))

-- Cut in the middle of a header, with a frame popped in between.
abbrev chunked : List Call
chunked =
    feeds (0x43 ∷ 0x48 ∷ 1 ∷ [])
    ∷ feeds (2 ∷ 0 ∷ 0 ∷ 0 ∷ 0 ∷ 0x43 ∷ [])
    ∷ pops
    ∷ feeds (0x48 ∷ 1 ∷ 4 ∷ 0 ∷ 0 ∷ 0 ∷ 2 ∷ 0x7b ∷ [])
    ∷ feeds (0x7d ∷ [])
    ∷ []

-- The same bytes at once.
abbrev at_once : List Call
at_once = feeds (fed chunked) ∷ []

abbrev frames : List Frame
frames = heartbeat_frame ∷ hello_frame ∷ []

frames_encoded : encode_frames frames ≡ some (fed chunked)
unfolding encode_frames encode_frame find_protocol find_in is_valid_utf8
frames_encoded = refl

abbrev reading : (fs : List Frame) × (e : Ending) × Stream (fed chunked) fs e
reading = read (fed chunked)

abbrev failed_decoder : FrameDecoder
failed_decoder = set_failure new_decoder FrameErrorKind.bad_magic

cut_short : is_valid_utf8 (0xe2 ∷ 0x82 ∷ []) ≡ false
unfolding is_valid_utf8
cut_short = refl

surrogate : is_valid_utf8 (0xed ∷ 0xa0 ∷ 0x80 ∷ []) ≡ false
unfolding is_valid_utf8
surrogate = refl

is_valid_utf8_iff_example :
    (is_valid_utf8 (0xe2 ∷ 0x82 ∷ 0xac ∷ []) ≡ true)
    ↔ ((us : List ℕ) × All IsScalar us × (encode us ≡ 0xe2 ∷ 0x82 ∷ 0xac ∷ []))
is_valid_utf8_iff_example =
    is_valid_utf8_iff (0xe2 ∷ 0x82 ∷ 0xac ∷ []) (omega arith, (omega arith, (omega arith, tt)))

run_reads_stream_example :
    (delivered (run new_decoder chunked) ≡ reading.0) × Shows (run new_decoder chunked).0 reading.1
run_reads_stream_example = run_reads_stream chunked reading.2

run_same_bytes_example :
    (delivered (run new_decoder chunked) ≡ delivered (run new_decoder at_once))
    × SameState (run new_decoder chunked).0 (run new_decoder at_once).0
run_same_bytes_example = run_same_bytes chunked at_once refl

run_failed_example : run failed_decoder chunked ≡ (failed_decoder, [])
run_failed_example = run_failed failed_decoder chunked refl

encode_frame_iff_example :
    (encode_frame hello_request (b'{' ∷ b'}' ∷ [])
      ≡ some (written hello_request 2 (b'{' ∷ b'}' ∷ [])))
    ↔ (IsSendable hello_request (b'{' ∷ b'}' ∷ [])
        × (written hello_request 2 (b'{' ∷ b'}' ∷ []) ≡ written hello_request 2 (b'{' ∷ b'}' ∷ [])))
encode_frame_iff_example =
    encode_frame_iff hello_request (b'{' ∷ b'}' ∷ []) (written hello_request 2 (b'{' ∷ b'}' ∷ []))

decode-encode_example :
    (delivered (run new_decoder chunked) ≡ frames)
    × ((run new_decoder chunked).0.failed ≡ false)
    × ((run new_decoder chunked).0.input_buffer ≡ [])
decode-encode_example = decode-encode frames chunked frames_encoded

chunked_bytes : All IsByte (fed chunked)
unfolding are_bytes
chunked_bytes = are_bytes_sound (fed chunked) refl

encode-decode_example :
    (w : Bytes) × (rest : Bytes) × (encode_frames (delivered (run new_decoder chunked)) ≡ some w)
    × (fed chunked ≡ w ++ rest)
    × (((run new_decoder chunked).0.failed ≡ true)
        ⊎ ((run new_decoder chunked).0.input_buffer ≡ rest))
encode-decode_example = encode-decode chunked chunked_bytes

buffer_bounded_example : length (run new_decoder chunked).0.input_buffer < 8 + 65536
buffer_bounded_example = buffer_bounded chunked decode-encode_example.1

popping-encode_example : (run new_decoder (chunked ++ popping 2)).1 ≡ frames
popping-encode_example = popping-encode frames chunked 2 frames_encoded (omega arith)

-- A decoder with two frames in its buffer.
abbrev filled_decoder : FrameDecoder
filled_decoder = record new_decoder { input_buffer = fed chunked }

decode_available_frames-Runs_example : Runs filled_decoder (decode_available_frames filled_decoder)
decode_available_frames-Runs_example = decode_available_frames-Runs filled_decoder

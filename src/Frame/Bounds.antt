-- ===== src/Frame/Bounds.antt =====
-- What is left in a decoder: the size of its buffer, and its state behind the same bytes in other
-- chunks.
use chat_hub.Prelude.{
  ◌+◌, ◌<◌, ◌≡◌, refl, sym, subst, ◌∙◌, List, true, false, arith, Bytes, length, get_or,
}
use chat_hub.Protocol.Policy.{type_limits}
use chat_hub.Protocol.Registry.{find_protocol_iff}
use chat_hub.Frame.{Frame, FrameDecoder, new_decoder}
use chat_hub.Frame.Session.{Call, fed, run, delivered, run_reads_stream}
use chat_hub.Frame.Feeding.{Shows}
use chat_hub.Frame.Stream.{
  Ending, waiting, broken, Stream, cut_header, bad_header, cut_body, bad_body, frame, read,
}
use chat_hub.Frame.Accepted.{header-IsAccepted}

-- Two decoders with the same failure, or the same bytes to go on with.
abbrev pub SameState : FrameDecoder → FrameDecoder → Type 0
SameState d d' =
    (d.failed ≡ d'.failed)
    × ((d.failed ≡ true) → d.error ≡ d'.error)
    × ((d.failed ≡ false) → d.input_buffer ≡ d'.input_buffer)

shown_same : (d d' : FrameDecoder) (e : Ending) → Shows d e → Shows d' e → SameState d d'
shown_same d d' (waiting r) h h' = (cc (h.0, h'.0), λ f. cc (h.0, f), λ f. cc (h.2, h'.2))
shown_same d d' (broken kind) h h' = (cc (h.0, h'.0), λ f. cc (h.1, h'.1), λ f. cc (h.0, f))

-- A stream waits with less than a header and the largest body.
Stream-bound :
    {bs : Bytes} {fs : List Frame} {e : Ending} (r : Bytes)
    → Stream bs fs e
    → e ≡ waiting r
    → length r < 8 + 65536
Stream-bound r (cut_header {bs} short) eq = let same : bs ≡ r = cc in rw (← same) (omega arith)
Stream-bound r (bad_header long h) eq = cc
Stream-bound r (cut_body {bs} {type} {n} long h short) eq =
    let same : bs ≡ r = cc in
    let acc = header-IsAccepted bs type n h in
    let (reg, _) = (find_protocol_iff (get_or bs 3 0) acc.descriptor).0 acc.registered in
    rw (← same) (omega (arith, acc.fits, (type_limits acc.descriptor reg).0))
Stream-bound r (bad_body h fits invalid) eq = cc
Stream-bound r (frame h fits valid s) eq = Stream-bound r s eq

shown_bound :
    (d : FrameDecoder) (e : Ending) {bs : Bytes} {fs : List Frame}
    → Stream bs fs e
    → Shows d e
    → d.failed ≡ false
    → length d.input_buffer < 8 + 65536
shown_bound d (waiting r) s shows working =
    subst (λ b. length b < 8 + 65536) (sym shows.2) (Stream-bound r s refl)
shown_bound d (broken kind) s shows working = cc (shows.0, working)

-- Between two calls the input buffer of a decoder that works holds less than one header and one body
-- of the largest size, 65544 bytes, however much it has been fed. The queue of decoded frames is not
-- counted.
pub buffer_bounded :
    (calls : List Call)
    → (run new_decoder calls).0.failed ≡ false
    → length (run new_decoder calls).0.input_buffer < 8 + 65536
buffer_bounded calls working =
    let (fs, e, s) = read (fed calls) in
    shown_bound (run new_decoder calls).0 e s (run_reads_stream calls s).1 working

-- What a decoder does depends on the bytes alone, and not on how they are cut into chunks: two runs
-- that feed the same bytes deliver the same frames and both fail or both work; if they fail, it is
-- with the same error, and otherwise their buffers hold the same bytes.
pub run_same_bytes :
    (calls calls' : List Call)
    → fed calls ≡ fed calls'
    → (delivered (run new_decoder calls) ≡ delivered (run new_decoder calls'))
      × SameState (run new_decoder calls).0 (run new_decoder calls').0
run_same_bytes calls calls' same =
    let (fs, e, s) = read (fed calls) in
    let (frames, shows) = run_reads_stream calls s in
    let (frames', shows') = run_reads_stream calls' (subst (λ bs. Stream bs fs e) same s) in
    (
      frames ∙ sym frames',
      shown_same (run new_decoder calls).0 (run new_decoder calls').0 e shows shows',
    )

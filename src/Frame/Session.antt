-- ===== src/Frame/Session.antt =====
-- A decoder over its whole life: any sequence of `feedBytes` and `tryPopFrame` calls.
use chat_hub.Prelude.{
  suc, ◌≡◌, refl, sym, ap, subst, ◌∙◌, List, [], ◌∷◌, ◌++◌, true, arith, Option, none, some, Bytes,
  length, Bool-cases, inl, inr, append-nil, append_assoc,
}
use chat_hub.Frame.{
  Frame, FrameDecoder, new_decoder, decode_loop, feed_bytes, pop_front, try_pop_frame,
}
use chat_hub.Frame.Append.{broken-append, waiting-append}
use chat_hub.Frame.Feeding.{Shows, filled, filled-IsReady, feed_working, feed_failed}
use chat_hub.Frame.Refines.{Ends, decode_loop-Ends}
use chat_hub.Frame.Stream.{Ending, waiting, broken, Stream, cut_header, read}

-- The calls of a client.
pub data Call : Type 0 where
  feeds : Bytes → Call
  pops : Call

unfoldable pub handed : Option Frame → List Frame
handed none = []
handed (some f) = f ∷ []

-- The decoder behind a sequence of calls, and the frames that `tryPopFrame` handed out.
unfoldable pub run : FrameDecoder → List Call → FrameDecoder × List Frame
unfolding handed
run d [] = (d, [])
run d (feeds bytes ∷ calls) = run (feed_bytes d bytes) calls
run d (pops ∷ calls) =
    let (d', out) = try_pop_frame d in
    let (last, frames) = run d' calls in (last, handed out ++ frames)

-- All bytes that the calls feed.
abbrev pub fed : List Call → Bytes
fed [] = []
fed (feeds bytes ∷ calls) = bytes ++ fed calls
fed (pops ∷ calls) = fed calls

Shows-frames :
    (d : FrameDecoder) (fs : List Frame) (e : Ending)
    → Shows d e
    → Shows (record d { decoded_frames = fs }) e
Shows-frames d fs (waiting bs) h = h
Shows-frames d fs (broken kind) h = h

pop_front_lem :
    (d : FrameDecoder) (fs : List Frame) (e : Ending)
    → Shows d e
    → d.decoded_frames ≡ fs
    → Shows (pop_front d fs).0 e
      × (handed (pop_front d fs).1 ++ (pop_front d fs).0.decoded_frames ≡ fs)
unfolding pop_front handed
pop_front_lem d [] e h q = (h, q)
pop_front_lem d (f ∷ rest) e h q = (Shows-frames d rest e h, refl)

-- Popping moves the first frame out, and changes nothing else.
pop_lem :
    (d : FrameDecoder) (e : Ending)
    → Shows d e
    → Shows (try_pop_frame d).0 e
      × (handed (try_pop_frame d).1 ++ (try_pop_frame d).0.decoded_frames ≡ d.decoded_frames)
unfolding try_pop_frame handed
pop_lem d e h = elim (Bool-cases d.failed) [
  | inl failed ↦ simp failed (h, refl)
  | inr working ↦ simp working (pop_front_lem d d.decoded_frames e h refl)
]

-- What has come out of a decoder, and what it still has, behind a run.
abbrev pub delivered : FrameDecoder × List Frame → List Frame
delivered (d, frames) = frames ++ d.decoded_frames

-- The calls go on with a stream that the decoder has read: they add the frames `new` to it.
abbrev Continues : FrameDecoder → Bytes → List Frame → List Call → Type 0
Continues d bs fs calls =
    (new : List Frame) × (e : Ending) × Stream (bs ++ fed calls) (fs ++ new) e
    × Shows (run d calls).0 e
    × (delivered (run d calls) ≡ d.decoded_frames ++ new)

Continues-done :
    (d : FrameDecoder) (bs : Bytes) (fs : List Frame) (e : Ending)
    → Stream bs fs e
    → Shows d e
    → Continues d bs fs []
unfolding run
Continues-done d bs fs e s shows =
    ([], e, rw (append-nil bs, append-nil fs) s, shows, sym (append-nil d.decoded_frames))

Continues-pops :
    (d d' : FrameDecoder) (out : Option Frame) (bs : Bytes) (fs : List Frame) (calls : List Call)
    → try_pop_frame d ≡ (d', out)
    → handed out ++ d'.decoded_frames ≡ d.decoded_frames
    → Continues d' bs fs calls
    → Continues d bs fs (pops ∷ calls)
unfolding run
Continues-pops d d' out bs fs calls popped kept (new, e, s, shows, all) = (
  new,
  e,
  s,
  rw popped shows,
  rw popped (
      append_assoc (handed out) _ _
      ∙ ap (◌++◌ (handed out)) all
      ∙ sym (append_assoc (handed out) d'.decoded_frames new)
      ∙ ap (λ t. t ++ new) kept),
)

Continues-feeds :
    (d d' : FrameDecoder) (bytes bs : Bytes) (fs next : List Frame) (calls : List Call)
    → feed_bytes d bytes ≡ d'
    → d'.decoded_frames ≡ d.decoded_frames ++ next
    → Continues d' (bs ++ bytes) (fs ++ next) calls
    → Continues d bs fs (feeds bytes ∷ calls)
unfolding run
Continues-feeds d d' bytes bs fs next calls fed_to kept (new, e, s, shows, all) = (
  next ++ new,
  e,
  rw (← append_assoc bs bytes (fed calls), ← append_assoc fs next new) s,
  rw (fed_to, run) shows,
  rw (fed_to, run) (all ∙ ap (λ t. t ++ new) kept ∙ append_assoc d.decoded_frames next new),
)

run-Continues :
    (calls : List Call) (d : FrameDecoder) (bs : Bytes) (fs : List Frame) (e : Ending)
    → Stream bs fs e
    → Shows d e
    → Continues d bs fs calls
run-Continues [] d bs fs e s shows = Continues-done d bs fs e s shows
run-Continues (pops ∷ calls) d bs fs e s shows =
    let (shows', kept) = pop_lem d e shows in
    Continues-pops d (try_pop_frame d).0 (try_pop_frame d).1 bs fs calls refl kept
      (run-Continues calls (try_pop_frame d).0 bs fs e s shows')
run-Continues (feeds bytes ∷ calls) d bs fs (broken kind) s shows =
    Continues-feeds d d bytes bs fs [] calls (feed_failed d bytes shows.0)
      (sym (append-nil d.decoded_frames))
      (rw (append-nil fs) (
        run-Continues calls d (bs ++ bytes) fs (broken kind) (broken-append bytes kind s refl)
          shows))
run-Continues (feeds bytes ∷ calls) d bs fs (waiting rest) s shows =
    let (next, e', s') = read (rest ++ bytes) in
    let (shows', kept) = feed_working d rest bytes shows s' in
    Continues-feeds d (feed_bytes d bytes) bytes bs fs next calls refl kept (
      run-Continues calls (feed_bytes d bytes) (bs ++ bytes) (fs ++ next) e'
        (waiting-append bytes rest s refl s') shows')

new_decoder-Shows : Shows new_decoder (waiting [])
new_decoder-Shows = (refl, refl, refl, inl refl)

-- The decoder is a function of the stream, so the stream has one reading only.
same_ending :
    (d : FrameDecoder) (e e' : Ending) (fs fs' : List Frame) (d' : FrameDecoder)
    → Ends d fs e d'
    → Ends d fs' e' d'
    → e ≡ e'
same_ending d (waiting r) (waiting r') fs fs' d' h h' = cc (h.1, h'.1)
same_ending d (waiting r) (broken k) fs fs' d' h h' = cc (h.0.working, h'.0)
same_ending d (broken k) (waiting r) fs fs' d' h h' = cc (h.0, h'.0.working)
same_ending d (broken k) (broken k') fs fs' d' h h' = cc (h.1, h'.1)

Ends-frames :
    (d : FrameDecoder) (e : Ending) (fs : List Frame) (d' : FrameDecoder)
    → Ends d fs e d'
    → d'.decoded_frames ≡ d.decoded_frames ++ fs
Ends-frames d (waiting r) fs d' h = h.3
Ends-frames d (broken k) fs d' h = h.2

pub Stream-unique :
    (bs : Bytes) {fs fs' : List Frame} {e e' : Ending}
    → Stream bs fs e
    → Stream bs fs' e'
    → (fs ≡ fs') × (e ≡ e')
Stream-unique bs {fs} {fs'} {e} {e'} s s' =
    let d = filled new_decoder bs in
    let d' = decode_loop (suc (length bs)) d in
    let ready = filled-IsReady new_decoder [] bs new_decoder-Shows in
    let ends = decode_loop-Ends (suc (length bs)) d s refl ready (omega arith) in
    let ends' = decode_loop-Ends (suc (length bs)) d s' refl ready (omega arith) in
    (
      sym (Ends-frames d e fs d' ends) ∙ Ends-frames d e' fs' d' ends',
      same_ending d e e' fs fs' d' ends ends',
    )

-- A decoder reads its stream, in whatever chunks it is fed and whenever frames are popped: what was
-- popped and what is still queued are the frames of all bytes fed, in order; it has failed exactly
-- if that stream is broken, with its error, and otherwise keeps just the bytes of the unfinished
-- frame.
pub run_reads_stream :
    (calls : List Call) {fs : List Frame} {e : Ending}
    → Stream (fed calls) fs e
    → (delivered (run new_decoder calls) ≡ fs) × Shows (run new_decoder calls).0 e
run_reads_stream calls {fs} {e} s =
    let (new, e', s', shows, all) =
      run-Continues calls new_decoder [] [] (waiting []) (cut_header (omega arith))
        new_decoder-Shows in
    let (same_frames, same_end) = Stream-unique (fed calls) s' s in
    (all ∙ same_frames, subst (Shows (run new_decoder calls).0) same_end shows)

-- A decoder that has failed stays as it is: it takes no bytes and hands out no frame, whatever is
-- called.
pub run_failed : (d : FrameDecoder) (calls : List Call) → d.failed ≡ true → run d calls ≡ (d, [])
unfolding run try_pop_frame
run_failed d [] h = refl
run_failed d (feeds bytes ∷ calls) h =
    ap (λ d'. run d' calls) (feed_failed d bytes h) ∙ run_failed d calls h
run_failed d (pops ∷ calls) h = ground (arith, run_failed d calls h)

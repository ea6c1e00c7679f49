-- ===== src/Frame/Feeding.antt =====
-- `feedBytes` on a decoder between two calls.
use chat_hub.Prelude.{
  suc, ◌≡◌, refl, ap, subst, ◌∙◌, List, ◌++◌, true, false, arith, Bytes, length, drop, Bool-cases,
  inl, inr, length-append, ltb,
}
use chat_hub.Frame.{
  Frame, FrameDecoder, decode_available_frames, discard_consumed_bytes, feed_bytes,
}
use chat_hub.Frame.Append.{header-append}
use chat_hub.Frame.Refines.{Pending, IsReady, Ends, decode_loop-Ends}
use chat_hub.Frame.Rounds.{unread}
use chat_hub.Frame.Stream.{Ending, waiting, broken, Stream}

-- How the ending of the stream shows in the decoder, between two calls.
abbrev pub Shows : FrameDecoder → Ending → Type 0
Shows d (waiting bs) =
    (d.failed ≡ false) × (d.consumed_prefix_size ≡ 0) × (d.input_buffer ≡ bs) × Pending d bs
Shows d (broken kind) = (d.failed ≡ true) × (d.error ≡ kind)

abbrev pub filled : FrameDecoder → Bytes → FrameDecoder
filled d bytes = record d { input_buffer = d.input_buffer ++ bytes }

pub filled-IsReady :
    (d : FrameDecoder) (bs bytes : Bytes) → Shows d (waiting bs) → IsReady (filled d bytes)
filled-IsReady d bs bytes (working, start, buffer, pending) = record {
  working = working;
  within_buffer = omega arith;
  pending = rw start (elim pending [
    | inl p ↦ inl p
    | inr (p, long, h) ↦ inr (
      p,
      rw buffer (omega (arith, length-append bs bytes)),
      rw buffer (header-append bs bytes long ∙ h),
    )
  ]);
}

discard-Shows :
    (d : FrameDecoder) (bs : Bytes)
    → IsReady d
    → unread d ≡ bs
    → Shows (discard_consumed_bytes d) (waiting bs)
unfolding discard_consumed_bytes
discard-Shows d bs ready u = elim (Bool-cases (ltb 0 d.consumed_prefix_size)) [
  | inl some_consumed ↦ rw some_consumed (ready.working, refl, u, subst (Pending d) u ready.pending)
  | inr none_consumed ↦
      let start : d.consumed_prefix_size ≡ 0 = ground arith in
      rw none_consumed (
        ready.working,
        start,
        subst (λ n. drop n d.input_buffer ≡ bs) start u,
        subst (Pending d) u ready.pending,
      )
]

discard_frames : (d : FrameDecoder) → (discard_consumed_bytes d).decoded_frames ≡ d.decoded_frames
unfolding discard_consumed_bytes
discard_frames d = ground arith

discard_failed : (d : FrameDecoder) → (discard_consumed_bytes d).failed ≡ d.failed
unfolding discard_consumed_bytes
discard_failed d = ground arith

discard_error : (d : FrameDecoder) → (discard_consumed_bytes d).error ≡ d.error
unfolding discard_consumed_bytes
discard_error d = ground arith

discard-Ends :
    (d d' : FrameDecoder) (fs : List Frame) (e : Ending)
    → Ends d fs e d'
    → Shows (discard_consumed_bytes d') e
      × ((discard_consumed_bytes d').decoded_frames ≡ d.decoded_frames ++ fs)
discard-Ends d d' fs (waiting bs) (ready, u, _, frames) =
    (discard-Shows d' bs ready u, discard_frames d' ∙ frames)
discard-Ends d d' fs (broken kind) (failed, error, frames) =
    ((discard_failed d' ∙ failed, discard_error d' ∙ error), discard_frames d' ∙ frames)

feed_step :
    (d : FrameDecoder) (bytes : Bytes)
    → d.failed ≡ false
    → feed_bytes d bytes ≡ discard_consumed_bytes (decode_available_frames (filled d bytes))
unfolding feed_bytes
feed_step d bytes h = simp h

-- Fed to a working decoder, bytes add the frames that the stream goes on with.
pub feed_working :
    (d : FrameDecoder) (bs bytes : Bytes) {fs : List Frame} {e : Ending}
    → Shows d (waiting bs)
    → Stream (bs ++ bytes) fs e
    → Shows (feed_bytes d bytes) e × ((feed_bytes d bytes).decoded_frames ≡ d.decoded_frames ++ fs)
unfolding decode_available_frames
feed_working d bs bytes {fs} {e} shows s =
    let start = shows.1 in
    let unread_bytes : unread (filled d bytes) ≡ bs ++ bytes =
      ap (λ n. drop n (d.input_buffer ++ bytes)) start ∙ ap (λ t. t ++ bytes) shows.2 in
    let ends =
      decode_loop-Ends (suc (length (d.input_buffer ++ bytes))) (filled d bytes) s unread_bytes
        (filled-IsReady d bs bytes shows) (omega (arith, ap (λ t. length (t ++ bytes)) shows.2)) in
    rw (feed_step d bytes shows.0)
      (discard-Ends (filled d bytes) (decode_available_frames (filled d bytes)) fs e ends)

-- A failed decoder ignores what it is fed.
pub feed_failed : (d : FrameDecoder) (bytes : Bytes) → d.failed ≡ true → feed_bytes d bytes ≡ d
unfolding feed_bytes
feed_failed d bytes h = rw h

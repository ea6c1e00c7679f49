-- ===== src/Frame/Refines.antt =====
-- `feedBytes` reads the stream: whatever the chunks, the decoder has the stream's frames and ending.
use chat_hub.Prelude.{
  ℕ, zero, suc, ◌+◌, ◌≤◌, ◌<◌, ◌≡◌, refl, sym, ap, subst, ◌∙◌, List, [], ◌∷◌, ◌++◌, true, false,
  arith, Bytes, length, take, drop, length-drop, ◌⊎◌, inl, inr, append-nil, append_assoc,
}
use chat_hub.Protocol.Types.{ProtocolType}
use chat_hub.Utf8.{is_valid_utf8}
use chat_hub.Frame.{Frame, FrameErrorKind, FrameDecoder, decode_body, decode_round, decode_loop}
use chat_hub.Frame.Rounds.{
  unread, drop-add, body_cut, body_invalid, body_valid, header_cut, round_pending, round_refused,
  round_accepted,
}
use chat_hub.Frame.Stream.{
  accepted, refused, header, Ending, waiting, broken, Stream, cut_header, bad_header, cut_body,
  bad_body, frame,
}

-- A pending header is that of the unread bytes.
abbrev pub Pending : FrameDecoder → Bytes → Type 0
Pending d bs =
    (d.has_pending_header ≡ false)
    ⊎ ((d.has_pending_header ≡ true)
        × (8 ≤ length bs)
        × (header bs ≡ accepted d.frame_type d.body_length))

-- A decoder that works, with its cursor inside the buffer.
pub record IsReady (d : FrameDecoder) : Type 0 where
  pub working : d.failed ≡ false
  pub within_buffer : d.consumed_prefix_size ≤ length d.input_buffer
  pub pending : Pending d (unread d)

-- `d'` is `d` behind the frames `fs` and the ending.
abbrev pub Ends : FrameDecoder → List Frame → Ending → FrameDecoder → Type 0
Ends d fs (waiting bs) d' =
    IsReady d'
    × (unread d' ≡ bs)
    × (d'.input_buffer ≡ d.input_buffer)
    × (d'.decoded_frames ≡ d.decoded_frames ++ fs)
Ends d fs (broken kind) d' =
    (d'.failed ≡ true) × (d'.error ≡ kind) × (d'.decoded_frames ≡ d.decoded_frames ++ fs)

abbrev pending_body : FrameDecoder → ProtocolType → ℕ → FrameDecoder
pending_body d type n = record d { frame_type = type; body_length = n; has_pending_header = true }

accepted_injective :
    {t u : ProtocolType} {n m : ℕ} → accepted t n ≡ accepted u m → (t ≡ u) × (n ≡ m)
accepted_injective e = (cc, cc)

module _ (d : FrameDecoder) (ready : IsReady d) where
  -- Behind a good header, pending or just read, the round is about the body.
  round_body :
      (type : ProtocolType) (n : ℕ)
      → 8 ≤ length (unread d)
      → header (unread d) ≡ accepted type n
      → decode_round d ≡ decode_body (pending_body d type n)
  round_body type n long h = elim ready.pending [
    | inl p ↦ round_accepted d type n p long h
    | inr (p, _, h') ↦
        let same = accepted_injective (sym h' ∙ h) in
        round_pending d p
        ∙ ap decode_body (λ i. record d {
          frame_type = same.0 i;
          body_length = same.1 i;
          has_pending_header = p i;
        })
  ]

  not_pending : length (unread d) < 8 → d.has_pending_header ≡ false
  not_pending short = ground (arith, ready.pending)

  not_pending_refused :
      (kind : FrameErrorKind) → header (unread d) ≡ refused kind → d.has_pending_header ≡ false
  not_pending_refused kind h = ground (arith, ready.pending)

-- The decoder behind one decoded frame.
abbrev advanced : FrameDecoder → ProtocolType → ℕ → FrameDecoder
advanced d type n = record d {
  frame_type = type;
  body_length = n;
  has_pending_header = false;
  decoded_frames =
      d.decoded_frames ++ (record { type = type; body = take n (drop 8 (unread d)) } ∷ []);
  consumed_prefix_size = d.consumed_prefix_size + (8 + n);
}

module _ (d : FrameDecoder) (ready : IsReady d) (type : ProtocolType) (n : ℕ)
    (h : header (unread d) ≡ accepted type n) where
  unread-advanced : unread (advanced d type n) ≡ drop (8 + n) (unread d)
  unread-advanced = drop-add d.input_buffer d.consumed_prefix_size (8 + n)

  round_frame :
      8 + n ≤ length (unread d)
      → is_valid_utf8 (take n (drop 8 (unread d))) ≡ true
      → decode_round d ≡ (advanced d type n, true)
  round_frame fits valid =
      round_body d ready type n (omega arith) h ∙ body_valid (pending_body d type n) fits valid

  advanced-IsReady : 8 + n ≤ length (unread d) → IsReady (advanced d type n)
  advanced-IsReady fits = record {
    working = ready.working;
    within_buffer = omega (arith, length-drop d.consumed_prefix_size d.input_buffer);
    pending = inl refl;
  }

stops :
    (fuel : ℕ) (d d' : FrameDecoder) → decode_round d ≡ (d', false) → decode_loop (suc fuel) d ≡ d'
unfolding decode_loop
stops fuel d d' e = rw e

goes_on :
    (fuel : ℕ) (d d' : FrameDecoder)
    → decode_round d ≡ (d', true)
    → decode_loop (suc fuel) d ≡ decode_loop fuel d'
unfolding decode_loop
goes_on fuel d d' e = rw e

-- Behind a frame, what comes next comes after that frame.
Ends-advanced :
    (d d' : FrameDecoder) (type : ProtocolType) (n : ℕ) (fs : List Frame) (e : Ending)
    → Ends (advanced d type n) fs e d'
    → Ends d (record { type = type; body = take n (drop 8 (unread d)) } ∷ fs) e d'
Ends-advanced d d' type n fs (waiting r) (ready, rest, buffer, frames) =
    (ready, rest, buffer, frames ∙ append_assoc d.decoded_frames _ fs)
Ends-advanced d d' type n fs (broken kind) (failed, error, frames) =
    (failed, error, frames ∙ append_assoc d.decoded_frames _ fs)

-- The loop, with fuel for every round, reads what the unread bytes hold.
pub decode_loop-Ends :
    (fuel : ℕ) (d : FrameDecoder) {bs : Bytes} {fs : List Frame} {e : Ending}
    → Stream bs fs e
    → unread d ≡ bs
    → IsReady d
    → length bs < fuel
    → Ends d fs e (decode_loop fuel d)
decode_loop-Ends zero d s u ready enough = absurd (omega arith)
decode_loop-Ends (suc fuel) d {bs} (cut_header short) u ready enough =
    let p = not_pending d ready (rw u short) in
    rw (stops fuel d d (header_cut d p (rw u short)))
      (ready, u, refl, sym (append-nil d.decoded_frames))
decode_loop-Ends (suc fuel) d (bad_header {kind} long h) u ready enough =
    let p = not_pending_refused d ready kind (rw u h) in
    rw (stops fuel d _ (round_refused d kind p (rw u long) (rw u h)))
      (refl, refl, sym (append-nil d.decoded_frames))
decode_loop-Ends (suc fuel) d (cut_body {type} {n} long h short) u ready enough =
    let round =
      round_body d ready type n (rw u long) (rw u h)
      ∙ body_cut (pending_body d type n) (rw u short) in
    rw (stops fuel d _ round) (
      record {
        working = ready.working;
        within_buffer = ready.within_buffer;
        pending = inr (refl, rw u long, rw u h);
      },
      u,
      refl,
      sym (append-nil d.decoded_frames),
    )
decode_loop-Ends (suc fuel) d (bad_body {type} {n} h fits invalid) u ready enough =
    let round =
      round_body d ready type n (rw u (omega arith)) (rw u h)
      ∙ body_invalid (pending_body d type n) (rw u fits) (rw u invalid) in
    rw (stops fuel d _ round) (refl, refl, sym (append-nil d.decoded_frames))
decode_loop-Ends (suc fuel) d (frame {bs} {type} {n} {fs} {e} h fits valid s) u ready enough =
    let d' = decode_loop fuel (advanced d type n) in
    let accepted_here : header (unread d) ≡ accepted type n = rw u h in
    let fits_here : 8 + n ≤ length (unread d) = rw u fits in
    let round = round_frame d ready type n accepted_here fits_here (rw u valid) in
    let next = unread-advanced d ready type n accepted_here ∙ ap (drop (8 + n)) u in
    let later =
      decode_loop-Ends fuel (advanced d type n) s next
        (advanced-IsReady d ready type n accepted_here fits_here)
        (omega (arith, length-drop (8 + n) bs)) in
    rw (goes_on fuel d (advanced d type n) round) (
      subst (λ t. Ends d (record { type = type; body = take n (drop 8 t) } ∷ fs) e d') u
        (Ends-advanced d d' type n fs e later))

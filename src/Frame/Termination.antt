-- ===== src/Frame/Termination.antt =====
-- The loop of `decodeAvailableFrames` ends.
use chat_hub.Prelude.{
  ℕ, zero, suc, ◌+◌, ◌-◌, ◌<◌, ◌≤◌, ◌≡◌, refl, sym, ap, ◌∙◌, Bool, true, false, ltb, arith, length,
  Bool-cases, inl, inr,
}
use chat_hub.Frame.{
  FrameDecoder, decode_body, decode_round, go_on, decode_loop, decode_available_frames,
}
use chat_hub.Utf8.{is_valid_utf8}
use chat_hub.Frame.Stream.{Header, accepted, refused, header}
use chat_hub.Frame.Rounds.{
  unread, length-unread, body_of, body_cut, body_valid, body_invalid, header_cut, round_pending,
  round_accepted, round_refused,
}

-- `while (true)`: the runs of the loop from one decoder to another.
pub data Runs : FrameDecoder → FrameDecoder → Type 0 where
  returns : {d d' : FrameDecoder} → decode_round d ≡ (d', false) → Runs d d'
  again : {d d' last : FrameDecoder} → decode_round d ≡ (d', true) → Runs d' last → Runs d last

-- The bytes that are not consumed yet.
left : FrameDecoder → ℕ
left d = length d.input_buffer - d.consumed_prefix_size

body_consumes : (d d' : FrameDecoder) → decode_body d ≡ (d', true) → left d' < left d
unfolding left
body_consumes d d' h = elim (Bool-cases (ltb (length (unread d)) (8 + d.body_length))) [
  | inl short ↦ cc (ap (λ r. r.1) (sym (body_cut d (ground arith)) ∙ h))
  | inr whole ↦ elim (Bool-cases (is_valid_utf8 (body_of d))) [
    | inl valid ↦
        let same = sym (body_valid d (ground arith) valid) ∙ h in
        let buffer = ap (λ r. length r.0.input_buffer) same in
        let prefix = ap (λ r. r.0.consumed_prefix_size) same in
        ground (arith, buffer, prefix, length-unread d)
    | inr invalid ↦ cc (ap (λ r. r.1) (sym (body_invalid d (ground arith) invalid) ∙ h))
  ]
]

header_consumes :
    (d d' : FrameDecoder) (h : Header)
    → header (unread d) ≡ h
    → d.has_pending_header ≡ false
    → 8 ≤ length (unread d)
    → decode_round d ≡ (d', true)
    → left d' < left d
unfolding left
header_consumes d d' (accepted type n) read none_pending enough h =
    body_consumes (record d { frame_type = type; body_length = n; has_pending_header = true }) d'
      (sym (round_accepted d type n none_pending enough read) ∙ h)
header_consumes d d' (refused kind) read none_pending enough h =
    cc (ap (λ r. r.1) (sym (round_refused d kind none_pending enough read) ∙ h))

round_consumes : (d d' : FrameDecoder) → decode_round d ≡ (d', true) → left d' < left d
round_consumes d d' h = elim (Bool-cases d.has_pending_header) [
  | inl pending ↦ body_consumes d d' (sym (round_pending d pending) ∙ h)
  | inr none_pending ↦ elim (Bool-cases (ltb (length (unread d)) 8)) [
    | inl short ↦ cc (ap (λ r. r.1) (sym (header_cut d none_pending (ground arith)) ∙ h))
    | inr enough ↦ header_consumes d d' _ refl none_pending (ground arith) h
  ]
]

loop_Runs : (fuel : ℕ) (d : FrameDecoder) → left d < fuel → Runs d (decode_loop fuel d)
unfolding decode_loop go_on
loop_Runs zero d enough = absurd (omega arith)
loop_Runs (suc fuel) d enough =
    go (decode_round d) refl (λ d' e. loop_Runs fuel d' (omega (arith, round_consumes d d' e)))
  where
    go :
        (r : FrameDecoder × Bool)
        → decode_round d ≡ r
        → ((d' : FrameDecoder) → decode_round d ≡ (d', true) → Runs d' (decode_loop fuel d'))
        → Runs d (go_on (decode_loop fuel) r)
    go (d', true) e rest = again e (rest d' e)
    go (d', false) e rest = returns e

-- From every decoder the loop of `decodeAvailableFrames` returns after finitely many rounds, and
-- the function's result is the decoder that it returns with.
pub decode_available_frames-Runs : (d : FrameDecoder) → Runs d (decode_available_frames d)
unfolding decode_available_frames left
decode_available_frames-Runs d = loop_Runs _ d (omega arith)

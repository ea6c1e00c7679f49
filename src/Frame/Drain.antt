-- ===== src/Frame/Drain.antt =====
-- Every frame that a peer has sent is handed out, as soon as its bytes are fed and there are enough
-- calls of `tryPopFrame`.
use chat_hub.Prelude.{
  ℕ, zero, suc, ◌≤◌, ◌≡◌, refl, sym, ap, ◌∙◌, List, [], ◌∷◌, ◌++◌, false, arith, some, length,
  length-append, append_assoc,
}
use chat_hub.Frame.{Frame, FrameDecoder, new_decoder, pop_front, try_pop_frame}
use chat_hub.Frame.RoundTrip.{encode_frames, decode-encode}
use chat_hub.Frame.Session.{Call, pops, fed, run, handed}

-- So many calls of `tryPopFrame`.
abbrev pub popping : ℕ → List Call
popping zero = []
popping (suc n) = pops ∷ popping n

run-append :
    (xs ys : List Call) (d : FrameDecoder)
    → (run d (xs ++ ys)).1 ≡ (run d xs).1 ++ (run (run d xs).0 ys).1
unfolding run
run-append [] ys d = refl
run-append (Call.feeds bytes ∷ xs) ys d = run-append xs ys _
run-append (Call.pops ∷ xs) ys d =
    ap (λ t. handed (try_pop_frame d).1 ++ t) (run-append xs ys (try_pop_frame d).0)
    ∙ sym (append_assoc (handed (try_pop_frame d).1) _ _)

-- A decoder that works hands out what it holds.
popping_lem :
    (n : ℕ) (fs : List Frame) (d : FrameDecoder)
    → d.failed ≡ false
    → d.decoded_frames ≡ fs
    → length fs ≤ n
    → (run d (popping n)).1 ≡ fs
unfolding run try_pop_frame pop_front handed
popping_lem zero [] d working held enough = refl
popping_lem zero (f ∷ fs) d working held enough = absurd (omega arith)
popping_lem (suc n) [] d working held enough =
    rw (working, held)
      (popping_lem n [] (record d { failed = false; decoded_frames = [] }) refl refl (omega arith))
popping_lem (suc n) (f ∷ fs) d working held enough =
    rw (working, held)
      (ap (λ t. f ∷ t)
        (popping_lem n fs (record d { failed = false; decoded_frames = fs }) refl refl
          (omega arith)))

-- Frames that `encodeFrame` has written one behind the other and that are fed to a new decoder, in
-- any chunks, are all handed out, in order, by as many calls of `tryPopFrame` as there are frames,
-- or more; further calls hand out nothing.
pub popping-encode :
    (fs : List Frame) (calls : List Call) (n : ℕ)
    → encode_frames fs ≡ some (fed calls)
    → length fs ≤ n
    → (run new_decoder (calls ++ popping n)).1 ≡ fs
popping-encode fs calls n sent enough =
    let (all, working, _) = decode-encode fs calls sent in
    let d = (run new_decoder calls).0 in
    let out = (run new_decoder calls).1 in
    let few : length d.decoded_frames ≤ n =
      omega (arith, length-append out d.decoded_frames, ap length all) in
    run-append calls (popping n) new_decoder
    ∙ ap (λ t. out ++ t) (popping_lem n d.decoded_frames d working refl few)
    ∙ all

-- ===== src/Hello/TextOrder.antt =====
-- The order of texts is a strict total order.
use chat_hub.Prelude.{◌≡◌, refl, [], ◌∷◌, true, false, arith, Bytes, ◌⊎◌, inl, inr, Bool-cases}
use chat_hub.Hello.{text_less, same_text}

pub text_less_irrefl : (s : Bytes) → text_less s s ≡ false
unfolding text_less
text_less_irrefl [] = refl
text_less_irrefl (c ∷ s) = ground (arith, text_less_irrefl s)

pub text_less_trans :
    (s t u : Bytes) → text_less s t ≡ true → text_less t u ≡ true → text_less s u ≡ true
unfolding text_less
text_less_trans s [] u h k = cc
text_less_trans s (d ∷ t) [] h k = cc
text_less_trans [] (d ∷ t) (e ∷ u) h k = refl
text_less_trans (c ∷ s) (d ∷ t) (e ∷ u) h k = ground (arith, text_less_trans s t u)

pub same_text_sound : (s t : Bytes) → same_text s t ≡ true → s ≡ t
unfolding same_text text_less
same_text_sound [] [] h = refl
same_text_sound [] (d ∷ t) h = cc
same_text_sound (c ∷ s) [] h = cc
same_text_sound (c ∷ s) (d ∷ t) h =
    let head : c ≡ d = ground arith in
    let tail : s ≡ t = same_text_sound s t (ground arith) in λ i. head i ∷ tail i

pub same_text_refl : (s : Bytes) → same_text s s ≡ true
unfolding same_text
same_text_refl s = ground (arith, text_less_irrefl s)

pub less-same_text : (s t : Bytes) → text_less s t ≡ true → same_text s t ≡ false
unfolding same_text
less-same_text s t h = ground arith

-- Of two texts one is less, or they are equal.
pub text_order_cases : (s t : Bytes) → (text_less s t ≡ true) ⊎ ((text_less t s ≡ true) ⊎ (s ≡ t))
text_order_cases s t = elim (Bool-cases (text_less s t)) [
  | inl less ↦ inl less
  | inr more ↦ elim (Bool-cases (text_less t s)) [
    | inl less ↦ inr (inl less)
    | inr same ↦ inr (inr (same_text_sound s t (unfold same_text in ground arith)))
  ]
]

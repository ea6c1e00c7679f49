-- ===== src/Ids/UuidId/Chars.antt =====
-- The loop of `isUuid` on a text that is cut at the dashes.
use chat_hub.Prelude.{
  ℕ, zero, suc, ◌+◌, ◌≡◌, refl, sym, ap, ◌∙◌, [], ◌∷◌, ◌++◌, Bool, true, false, not, ◌&&◌, ◌==◌,
  arith, Bytes, length, append-nil, &&_iff, append-nil,
}
use chat_hub.Ids.UuidId.{is_dash_index, is_hex, uuid_chars}

unfoldable pub all_hex : Bytes → Bool
all_hex [] = true
all_hex (c ∷ s) = is_hex c && all_hex s

no_dash : ℕ → ℕ → Bool
unfolding is_dash_index
no_dash i zero = true
no_dash i (suc k) = not (is_dash_index i) && no_dash (i + 1) k

-- A group between two dashes.
group_chars :
    (g s : Bytes) (i k : ℕ)
    → length g ≡ k
    → no_dash i k ≡ true
    → uuid_chars i (g ++ s) ≡ (all_hex g && uuid_chars (i + k) s)
unfolding uuid_chars all_hex no_dash
group_chars [] s i k size h = let none_left : i + k ≡ i = omega arith in rw none_left
group_chars (c ∷ g) s i zero size h = absurd (omega arith)
group_chars (c ∷ g) s i (suc k) size h =
    let rest = (&&_iff (not (is_dash_index i)) (no_dash (i + 1) k)).0 h in
    let shifted : i + suc k ≡ i + 1 + k = omega arith in
    let ih = group_chars g s (i + 1) k (omega arith) rest.1 in rw shifted (ground (arith, ih))

dash_char :
    (c : ℕ) (s : Bytes) (i : ℕ)
    → is_dash_index i ≡ true
    → uuid_chars i (c ∷ s) ≡ ((c == b'-') && uuid_chars (i + 1) s)
unfolding uuid_chars
dash_char c s i h = ground arith

-- The group behind the last dash.
last_chars : (g : Bytes) (i k : ℕ) → length g ≡ k → no_dash i k ≡ true → uuid_chars i g ≡ all_hex g
last_chars g i k size h =
    ap (uuid_chars i) (sym (append-nil g))
    ∙ group_chars g [] i k size h
    ∙ unfold uuid_chars in and-true (all_hex g)
  where
    and-true : (x : Bool) → (x && true) ≡ x
    and-true true = refl
    and-true false = refl

-- The loop on a text of 36 characters, cut at the four places of the dashes.
pub chars_cut :
    (a b c d e : Bytes) (x y z w : ℕ)
    → (length a ≡ 8) × (length b ≡ 4) × (length c ≡ 4) × (length d ≡ 4) × (length e ≡ 12)
    → uuid_chars 0 (a ++ (x ∷ (b ++ (y ∷ (c ++ (z ∷ (d ++ (w ∷ e)))))))) ≡ (
        all_hex a
        && ((x == b'-')
            && (all_hex b
                && ((y == b'-')
                    && (all_hex c && ((z == b'-') && (all_hex d && ((w == b'-') && all_hex e))))))))
unfolding no_dash
chars_cut a b c d e x y z w (la, lb, lc, ld, le) =
    group_chars a _ 0 8 la refl
    ∙ ap (λ t. all_hex a && t)
        (dash_char x _ 8 refl
          ∙ ap (λ t. (x == b'-') && t)
              (group_chars b _ 9 4 lb refl
                ∙ ap (λ t. all_hex b && t)
                    (dash_char y _ 13 refl
                      ∙ ap (λ t. (y == b'-') && t)
                          (group_chars c _ 14 4 lc refl
                            ∙ ap (λ t. all_hex c && t)
                                (dash_char z _ 18 refl
                                  ∙ ap (λ t. (z == b'-') && t)
                                      (group_chars d _ 19 4 ld refl
                                        ∙ ap (λ t. all_hex d && t)
                                            (dash_char w _ 23 refl
                                              ∙ ap (λ t. (w == b'-') && t)
                                                  (last_chars e 24 12 le refl))))))))

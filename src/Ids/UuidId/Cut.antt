-- ===== src/Ids/UuidId/Cut.antt =====
-- `isUuid` on a text of 36 characters that is cut into its groups.
use chat_hub.Prelude.{
  ℕ, zero, suc, ◌+◌, ◌<◌, ◌≡◌, refl, ap, ◌∙◌, [], ◌∷◌, ◌++◌, Bool, false, not, ◌&&◌, ◌==◌,
  if◌then◌else◌, arith, Bytes, length, get_or, take, drop, length-take, length-drop, length-append,
}
use chat_hub.Ids.UuidId.{is_variant, is_uuid}
use chat_hub.Ids.UuidId.Chars.{all_hex, chars_cut}

get_or-append_right : (xs ys : Bytes) (i : ℕ) → get_or (xs ++ ys) (length xs + i) 0 ≡ get_or ys i 0
get_or-append_right [] ys i = ap (λ k. get_or ys k 0) (omega arith)
get_or-append_right (x ∷ xs) ys i =
    let shifted : length (x ∷ xs) + i ≡ suc (length xs + i) = omega arith in
    rw shifted (get_or-append_right xs ys i)

-- A text that is longer than `n`, cut there.
cut_at : (n : ℕ) (xs : Bytes) → n < length xs → xs ≡ take n xs ++ (get_or xs n 0 ∷ drop (n + 1) xs)
cut_at zero [] h = absurd (omega arith)
cut_at (suc n) [] h = absurd (omega arith)
cut_at zero (x ∷ xs) h = refl
cut_at (suc n) (x ∷ xs) h =
    let shifted : suc n + 1 ≡ suc (n + 1) = omega arith in
    rw shifted (ap (◌∷◌ x) (cut_at n xs (omega arith)))

-- The characters at index 14 and 19.
char_14 :
    (a b rest : Bytes) (x y u : ℕ)
    → length a ≡ 8
    → length b ≡ 4
    → get_or (a ++ (x ∷ (b ++ (y ∷ (u ∷ rest))))) 14 0 ≡ u
char_14 a b rest x y u la lb =
    let outer : 14 ≡ length a + 6 = omega arith in
    let inner : 5 ≡ length b + 1 = omega arith in
    ap (λ k. get_or (a ++ (x ∷ (b ++ (y ∷ (u ∷ rest))))) k 0) outer
    ∙ get_or-append_right a _ 6
    ∙ ap (λ k. get_or (b ++ (y ∷ (u ∷ rest))) k 0) inner
    ∙ get_or-append_right b _ 1

char_19 :
    (a b c rest : Bytes) (x y z u : ℕ)
    → length a ≡ 8
    → length b ≡ 4
    → length c ≡ 4
    → get_or (a ++ (x ∷ (b ++ (y ∷ (c ++ (z ∷ (u ∷ rest))))))) 19 0 ≡ u
char_19 a b c rest x y z u la lb lc =
    let outer : 19 ≡ length a + 11 = omega arith in
    let middle : 10 ≡ length b + 6 = omega arith in
    let inner : 5 ≡ length c + 1 = omega arith in
    ap (λ k. get_or (a ++ (x ∷ (b ++ (y ∷ (c ++ (z ∷ (u ∷ rest))))))) k 0) outer
    ∙ get_or-append_right a _ 11
    ∙ ap (λ k. get_or (b ++ (y ∷ (c ++ (z ∷ (u ∷ rest))))) k 0) middle
    ∙ get_or-append_right b _ 6
    ∙ ap (λ k. get_or (c ++ (z ∷ (u ∷ rest))) k 0) inner
    ∙ get_or-append_right c _ 1

-- A text of 36 characters, cut at the dashes and at the two places with a test of their own.
abbrev pub cut_text : Bytes → ℕ → Bytes → ℕ → ℕ → Bytes → ℕ → ℕ → Bytes → ℕ → Bytes → Bytes
cut_text a x b y u c z v d w e = a ++ (x ∷ (b ++ (y ∷ ((u ∷ c) ++ (z ∷ ((v ∷ d) ++ (w ∷ e)))))))

pub record Cut (id : Bytes) : Type 0 where
  pub a : Bytes
  pub x : ℕ
  pub b : Bytes
  pub y : ℕ
  pub u : ℕ
  pub c : Bytes
  pub z : ℕ
  pub v : ℕ
  pub d : Bytes
  pub w : ℕ
  pub e : Bytes
  pub text : id ≡ cut_text a x b y u c z v d w e
  pub lengths : (length a ≡ 8) × (length b ≡ 4) × (length c ≡ 3) × (length d ≡ 3) × (length e ≡ 12)

head_cut :
    (xs : Bytes) (n : ℕ)
    → length xs ≡ suc n
    → (xs ≡ get_or xs 0 0 ∷ drop 1 xs) × (length (drop 1 xs) ≡ n)
head_cut [] n h = absurd (omega arith)
head_cut (x ∷ xs) n h = (refl, omega arith)

pub Cut-uuid : (id : Bytes) → length id ≡ 36 → Cut id
Cut-uuid id h =
    let r1 = drop 9 id in
    let r2 = drop 5 r1 in
    let r3 = drop 5 r2 in
    let n1 : length r1 ≡ 27 = omega (arith, length-drop 9 id) in
    let n2 : length r2 ≡ 22 = omega (arith, length-drop 5 r1) in
    let n3 : length r3 ≡ 17 = omega (arith, length-drop 5 r2) in
    let (c_cut, c_size) = head_cut (take 4 r2) 3 (length-take 4 r2 (omega arith)) in
    let (d_cut, d_size) = head_cut (take 4 r3) 3 (length-take 4 r3 (omega arith)) in
    record {
      a = take 8 id;
      x = get_or id 8 0;
      b = take 4 r1;
      y = get_or r1 4 0;
      u = get_or (take 4 r2) 0 0;
      c = drop 1 (take 4 r2);
      z = get_or r2 4 0;
      v = get_or (take 4 r3) 0 0;
      d = drop 1 (take 4 r3);
      w = get_or r3 4 0;
      e = drop 5 r3;
      text =
          cut_at 8 id (omega arith)
          ∙ ap (λ t. take 8 id ++ (get_or id 8 0 ∷ t))
              (cut_at 4 r1 (omega arith)
                ∙ ap (λ t. take 4 r1 ++ (get_or r1 4 0 ∷ t))
                    (cut_at 4 r2 (omega arith)
                      ∙ ap (λ t. t ++ (get_or r2 4 0 ∷ r3)) c_cut
                      ∙ ap
                          (λ t.
                            (get_or (take 4 r2) 0 0 ∷ drop 1 (take 4 r2)) ++ (get_or r2 4 0 ∷ t))
                          (cut_at 4 r3 (omega arith)
                            ∙ ap (λ t. t ++ (get_or r3 4 0 ∷ drop 5 r3)) d_cut)));
      lengths = (
        length-take 8 id (omega arith),
        length-take 4 r1 (omega arith),
        c_size,
        d_size,
        omega (arith, length-drop 5 r3),
      );
    }

length-cut_text :
    (a b c d e : Bytes) (x y u z v w : ℕ)
    → (length a ≡ 8) × (length b ≡ 4) × (length c ≡ 3) × (length d ≡ 3) × (length e ≡ 12)
    → length (cut_text a x b y u c z v d w e) ≡ 36
length-cut_text a b c d e x y u z v w (la, lb, lc, ld, le) = omega (
  arith,
  length-append a (x ∷ (b ++ (y ∷ ((u ∷ c) ++ (z ∷ ((v ∷ d) ++ (w ∷ e))))))),
  length-append b (y ∷ ((u ∷ c) ++ (z ∷ ((v ∷ d) ++ (w ∷ e))))),
  length-append c (z ∷ ((v ∷ d) ++ (w ∷ e))),
  length-append d (w ∷ e),
)

tests_in_turn :
    (p q r : Bool) → (if not p then false else if not q then false else r) ≡ (p && (q && r))
tests_in_turn p q r = ground arith

-- What `is_uuid` tests of a cut text.
pub is_uuid_cut :
    (a b c d e : Bytes) (x y u z v w : ℕ)
    → (length a ≡ 8) × (length b ≡ 4) × (length c ≡ 3) × (length d ≡ 3) × (length e ≡ 12)
    → is_uuid (cut_text a x b y u c z v d w e) ≡ (
        (all_hex a
          && ((x == b'-')
              && (all_hex b
                  && ((y == b'-')
                      && (all_hex (u ∷ c)
                          && ((z == b'-') && (all_hex (v ∷ d) && ((w == b'-') && all_hex e))))))))
        && ((u == b'4') && is_variant v))
unfolding is_uuid
is_uuid_cut a b c d e x y u z v w sizes =
    let (la, lb, lc, ld, le) = sizes in
    let long = length-cut_text a b c d e x y u z v w sizes in
    let loop = chars_cut a b (u ∷ c) (v ∷ d) e x y z w (la, lb, omega arith, omega arith, le) in
    let at_14 = char_14 a b (c ++ (z ∷ ((v ∷ d) ++ (w ∷ e)))) x y u la lb in
    let at_19 = char_19 a b (u ∷ c) (d ++ (w ∷ e)) x y z v la lb (omega arith) in
    rw (long, loop, at_14, at_19) (tests_in_turn _ (u == b'4') (is_variant v))

-- ===== src/Ids/UuidId/Shape.antt =====
-- `isUuid` accepts exactly the texts of the form 8-4-4-4-12 of version 4.
use chat_hub.Prelude.{
  ℕ, ◌+◌, ◌≡◌, ◌↔◌, refl, sym, subst, ◌∙◌, [], ◌∷◌, ◌++◌, true, ◌&&◌, ◌==◌, arith, Bytes, length,
  some, ◌≤◌, ◌⊎◌, All, &&_iff,
}
use chat_hub.Ids.Ascii.{to_lower_ascii}
use chat_hub.Ids.UuidId.{is_dash_index, is_hex, uuid_chars, is_variant, is_uuid, UuidId, parse}
use chat_hub.Ids.UuidId.Chars.{all_hex}
use chat_hub.Ids.UuidId.Cut.{Cut-uuid, cut_text, is_uuid_cut}

-- The text of five groups: version 4, variant `v`.
abbrev pub uuid_text : Bytes → Bytes → Bytes → ℕ → Bytes → Bytes → Bytes
uuid_text a b c v d e =
    a ++ (b'-' ∷ (b ++ (b'-' ∷ ((b'4' ∷ c) ++ (b'-' ∷ ((v ∷ d) ++ (b'-' ∷ e)))))))

-- A hexadecimal digit in lower case.
abbrev pub IsHexDigit : ℕ → Type 0
IsHexDigit c = ((b'0' ≤ c) × (c ≤ b'9')) ⊎ ((b'a' ≤ c) × (c ≤ b'f'))

-- The form of a UUID of version 4 in lower case.
pub record IsUuid4 (id : Bytes) : Type 0 where
  pub a : Bytes
  pub b : Bytes
  pub c : Bytes
  pub v : ℕ
  pub d : Bytes
  pub e : Bytes
  pub text : id ≡ uuid_text a b c v d e
  pub lengths : (length a ≡ 8) × (length b ≡ 4) × (length c ≡ 3) × (length d ≡ 3) × (length e ≡ 12)
  pub variant : (v ≡ b'8') ⊎ ((v ≡ b'9') ⊎ ((v ≡ b'a') ⊎ (v ≡ b'b')))
  pub hex :
      All IsHexDigit a × All IsHexDigit b × All IsHexDigit c × All IsHexDigit d × All IsHexDigit e

-- The two tests on one character.
is_hex_iff : (c : ℕ) → (is_hex c ≡ true) ↔ IsHexDigit c
unfolding is_hex
is_hex_iff c = (λ h. ground arith, λ h. ground arith)

is_variant_iff :
    (v : ℕ) → (is_variant v ≡ true) ↔ ((v ≡ b'8') ⊎ ((v ≡ b'9') ⊎ ((v ≡ b'a') ⊎ (v ≡ b'b'))))
unfolding is_variant
is_variant_iff v = (λ h. ground arith, λ h. ground arith)

all_hex-digits : (s : Bytes) → (all_hex s ≡ true) ↔ All IsHexDigit s
unfolding all_hex
all_hex-digits [] = (λ h. tt, λ h. refl)
all_hex-digits (c ∷ s) = (
  λ h.
      let (one, others) = (&&_iff (is_hex c) (all_hex s)).0 h in
      ((is_hex_iff c).0 one, (all_hex-digits s).0 others),
  λ h. (&&_iff (is_hex c) (all_hex s)).1 ((is_hex_iff c).1 h.0, (all_hex-digits s).1 h.1),
)

variant-hex : (v : ℕ) → is_variant v ≡ true → is_hex v ≡ true
unfolding is_variant is_hex
variant-hex v h = ground arith

is_uuid-size : (id : Bytes) → is_uuid id ≡ true → length id ≡ 36
unfolding is_uuid
is_uuid-size id h = ground arith

-- The tests of a cut text, one by one.
cut_tests :
    (a b c d e : Bytes) (x y u z v w : ℕ)
    → ((all_hex a
          && ((x == b'-')
              && (all_hex b
                  && ((y == b'-')
                      && (all_hex (u ∷ c)
                          && ((z == b'-') && (all_hex (v ∷ d) && ((w == b'-') && all_hex e))))))))
        && ((u == b'4') && is_variant v))
      ≡ true
    → (x ≡ b'-')
      × (y ≡ b'-')
      × (z ≡ b'-')
      × (w ≡ b'-')
      × (u ≡ b'4')
      × (is_variant v ≡ true)
      × (all_hex a ≡ true)
      × (all_hex b ≡ true)
      × (all_hex c ≡ true)
      × (all_hex d ≡ true)
      × (all_hex e ≡ true)
unfolding all_hex
cut_tests a b c d e x y u z v w h = ground arith

uuid-IsUuid4 : (id : Bytes) → is_uuid id ≡ true → IsUuid4 id
uuid-IsUuid4 id h =
    let k = Cut-uuid id (is_uuid-size id h) in
    let (x, y, z, w, u, variant, ha, hb, hc, hd, he) =
      cut_tests k.a k.b k.c k.d k.e k.x k.y k.u k.z k.v k.w (
        sym (is_uuid_cut k.a k.b k.c k.d k.e k.x k.y k.u k.z k.v k.w k.lengths)
        ∙ subst (λ t. is_uuid t ≡ true) k.text h) in
    record {
      a = k.a;
      b = k.b;
      c = k.c;
      v = k.v;
      d = k.d;
      e = k.e;
      text = k.text ∙ λ i. cut_text k.a (x i) k.b (y i) (u i) k.c (z i) k.v k.d (w i) k.e;
      lengths = k.lengths;
      variant = (is_variant_iff k.v).0 variant;
      hex = (
        (all_hex-digits k.a).0 ha,
        (all_hex-digits k.b).0 hb,
        (all_hex-digits k.c).0 hc,
        (all_hex-digits k.d).0 hd,
        (all_hex-digits k.e).0 he,
      );
    }

four_hex : is_hex b'4' ≡ true
unfolding is_hex
four_hex = refl

IsUuid4-uuid : (id : Bytes) → IsUuid4 id → is_uuid id ≡ true
unfolding all_hex
IsUuid4-uuid id s =
    let (ha, hb, hc, hd, he) = s.hex in
    let variant = (is_variant_iff s.v).1 s.variant in
    subst (λ t. is_uuid t ≡ true) (sym s.text)
      (is_uuid_cut s.a s.b s.c s.d s.e b'-' b'-' b'4' b'-' s.v b'-' s.lengths
        ∙ rw
            (
              (all_hex-digits s.a).1 ha,
              (all_hex-digits s.b).1 hb,
              (all_hex-digits s.c).1 hc,
              (all_hex-digits s.d).1 hd,
              (all_hex-digits s.e).1 he,
              variant,
            )
            (ground (arith, four_hex, variant-hex s.v variant)))

-- Hexadecimal digits in lower case, and dashes, are their own lower case.
uuid_chars-lower : (s : Bytes) (i : ℕ) → uuid_chars i s ≡ true → to_lower_ascii s ≡ s
unfolding uuid_chars to_lower_ascii is_hex is_dash_index
uuid_chars-lower [] i h = refl
uuid_chars-lower (c ∷ s) i h = ground (arith, uuid_chars-lower s (i + 1))

is_uuid-chars : (id : Bytes) → is_uuid id ≡ true → uuid_chars 0 id ≡ true
unfolding is_uuid
is_uuid-chars id h = ground arith

parse-eq_some :
    {Tag : Type 0} (id : Bytes) (r : UuidId Tag)
    → (parse id ≡ some r) ↔ ((is_uuid id ≡ true) × (r.value ≡ to_lower_ascii id))
unfolding parse
parse-eq_some id r = (λ h. (ground arith, ground arith), λ h. ground arith)

-- `UuidId::parse` succeeds exactly on the form 8-4-4-4-12 of lower-case hexadecimal digits with
-- version 4 and variant 8, 9, a or b, and then stores the text as it is.
pub uuid_parse_iff :
    {Tag : Type 0} (id : Bytes) (r : UuidId Tag)
    → (parse id ≡ some r) ↔ (IsUuid4 id × (r.value ≡ id))
uuid_parse_iff id r = (
  λ h.
      let (ok, lowered) = (parse-eq_some id r).0 h in
      (uuid-IsUuid4 id ok, lowered ∙ uuid_chars-lower id 0 (is_uuid-chars id ok)),
  λ (shape, stored).
      let ok = IsUuid4-uuid id shape in
      (parse-eq_some id r).1 (ok, stored ∙ sym (uuid_chars-lower id 0 (is_uuid-chars id ok))),
)

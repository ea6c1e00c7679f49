-- ===== src/Pki/Ipv4.antt =====
-- `isIpv4Literal` accepts the texts of four bytes.
use chat_hub.Prelude.{
  ℕ, zero, suc, ◌+◌, ◌≤◌, ◌<◌, ◌≡◌, ◌↔◌, refl, ap, subst, ◌∙◌, List, [], ◌∷◌, ◌++◌, Bool, true,
  ◌==◌, arith, Bytes, length, length-append, All, Option, none, some,
}
use chat_hub.Ids.DecimalSeq.{to_string}
use chat_hub.Ids.DecimalSeq.Canonical.{to_string_digits}
use chat_hub.Pki.{split_dot, is_octet, behind_dot, ipv4_loop, is_ipv4_literal}
use chat_hub.Pki.Octets.{
  to_string-octet, octet-to_string, split_dot_front, split_dot_alone, rejoined, split_dot-rejoined,
}

-- Numbers in decimal, with dots between them.
abbrev pub dotted : List ℕ → Bytes
dotted [] = []
dotted (n ∷ []) = to_string n
dotted (n ∷ m ∷ ns) = to_string n ++ (b'.' ∷ dotted (m ∷ ns))

-- Four bytes and their text.
abbrev pub IsDottedQuad : Bytes → Type 0
IsDottedQuad text = (ns : List ℕ) × (length ns ≡ 4) × All (λ n. n < 256) ns × (dotted ns ≡ text)

length-dotted : (ns : List ℕ) → length ns ≤ suc (length (dotted ns))
length-dotted [] = omega arith
length-dotted (n ∷ []) = omega arith
length-dotted (n ∷ m ∷ ns) =
    omega (arith, length-dotted (m ∷ ns), length-append (to_string n) (b'.' ∷ dotted (m ∷ ns)))

behind_some :
    (next : Bytes → Bool) (k : ℕ) (rest : Bytes) → behind_dot next k (some rest) ≡ next rest
unfolding behind_dot
behind_some next k rest = refl

behind_none : (next : Bytes → Bool) (k : ℕ) → behind_dot next k none ≡ (k == 4)
unfolding behind_dot
behind_none next k = refl

-- One round, on what the text is split into.
round :
    (fuel k : ℕ) (s octet : Bytes) (behind : Option Bytes)
    → split_dot s ≡ (octet, behind)
    → is_octet octet ≡ true
    → ipv4_loop (suc fuel) k s ≡ behind_dot (ipv4_loop fuel (k + 1)) (k + 1) behind
unfolding ipv4_loop
round fuel k s octet behind split fine = rw (split, fine) refl

digits_of : (n : ℕ) → n < 256 → All (λ c. (b'0' ≤ c) × (c ≤ b'9')) (to_string n)
digits_of n h = (to_string_digits n (omega arith)).0

-- The loop counts the octets of a dotted text.
loop_dotted :
    (ns : List ℕ) (n fuel k : ℕ)
    → All (λ m. m < 256) (n ∷ ns)
    → length ns < fuel
    → ipv4_loop fuel k (dotted (n ∷ ns)) ≡ (k + length (n ∷ ns) == 4)
loop_dotted ns n zero k small enough = absurd (omega arith)
loop_dotted [] n (suc fuel) k small enough =
    round fuel k (to_string n) (to_string n) none
      (split_dot_alone (to_string n) (digits_of n small.0)) (to_string-octet n small.0)
    ∙ behind_none (ipv4_loop fuel (k + 1)) (k + 1)
loop_dotted (m ∷ ns) n (suc fuel) k small enough =
    round fuel k (dotted (n ∷ m ∷ ns)) (to_string n) (some (dotted (m ∷ ns)))
      (split_dot_front (to_string n) (dotted (m ∷ ns)) (digits_of n small.0))
      (to_string-octet n small.0)
    ∙ behind_some (ipv4_loop fuel (k + 1)) (k + 1) (dotted (m ∷ ns))
    ∙ loop_dotted ns m fuel (k + 1) small.1 (omega arith)
    ∙ ap (λ t. t == 4) (omega arith)

-- What the loop accepts is a dotted text.
Counted : ℕ → Bytes → Type 0
Counted k s =
    (n : ℕ) × (ns : List ℕ) × (k + length (n ∷ ns) ≡ 4)
    × All (λ m. m < 256) (n ∷ ns)
    × (dotted (n ∷ ns) ≡ s)

octet_passed :
    (fuel k : ℕ) (s : Bytes)
    → ipv4_loop (suc fuel) k s ≡ true
    → (is_octet (split_dot s).0 ≡ true)
      × (behind_dot (ipv4_loop fuel (k + 1)) (k + 1) (split_dot s).1 ≡ true)
unfolding ipv4_loop
octet_passed fuel k s h = (ground arith, ground arith)

-- The octets of a text, from those behind its first dot.
count_one :
    (next : Bytes → Bool) (k : ℕ) (octet : Bytes) (behind : Option Bytes)
    → ((rest : Bytes) → next rest ≡ true → Counted (k + 1) rest)
    → is_octet octet ≡ true
    → behind_dot next (k + 1) behind ≡ true
    → Counted k (rejoined octet behind)
unfolding behind_dot Counted
count_one next k octet none others fine h =
    let (n, small, same) = octet-to_string octet fine in (n, [], ground arith, (small, tt), same)
count_one next k octet (some rest) others fine h =
    let (n, small, same) = octet-to_string octet fine in
    let (m, ms, count, below, text) = others rest h in
    (n, m ∷ ms, omega arith, (small, below), λ i. same i ++ (b'.' ∷ text i))

loop-Counted : (fuel k : ℕ) (s : Bytes) → ipv4_loop fuel k s ≡ true → Counted k s
unfolding ipv4_loop
loop-Counted zero k s h = cc
loop-Counted (suc fuel) k s h =
    let (fine, next) = octet_passed fuel k s h in
    subst (Counted k) (split_dot-rejoined s) (
      count_one (ipv4_loop fuel (k + 1)) k (split_dot s).0 (split_dot s).1
        (loop-Counted fuel (k + 1)) fine next)

dotted-accepted :
    (ns : List ℕ) → length ns ≡ 4 → All (λ n. n < 256) ns → is_ipv4_literal (dotted ns) ≡ true
unfolding is_ipv4_literal
dotted-accepted [] count small = absurd (omega arith)
dotted-accepted (n ∷ ns) count small =
    loop_dotted ns n (suc (length (dotted (n ∷ ns)))) 0 small
      (omega (arith, length-dotted (n ∷ ns)))
    ∙ ground arith

-- `isIpv4Literal` accepts exactly the texts of four numbers below 256 in decimal, without leading
-- zeros, with a dot between each two.
pub is_ipv4_literal_iff : (text : Bytes) → (is_ipv4_literal text ≡ true) ↔ IsDottedQuad text
unfolding is_ipv4_literal Counted
is_ipv4_literal_iff text = (
  λ h.
      let (n, ns, count, small, same) = loop-Counted (suc (length text)) 0 text h in
      (n ∷ ns, omega arith, small, same),
  λ (ns, count, small, same).
      subst (λ t. is_ipv4_literal t ≡ true) same (dotted-accepted ns count small),
)

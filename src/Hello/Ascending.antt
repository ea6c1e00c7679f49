-- ===== src/Hello/Ascending.antt =====
-- Ascending lists of texts: what `emplace` keeps, and that their members tell them apart.
use chat_hub.Prelude.{
  ◌≡◌, refl, sym, ◌∙◌, subst, List, [], ◌∷◌, true, false, ◌||◌, arith, Bytes, All, inl, inr,
  Bool-cases,
}
use chat_hub.Hello.{text_less, same_text, emplace, member}
use chat_hub.Hello.TextOrder.{
  text_less_trans, same_text_sound, same_text_refl, less-same_text, text_order_cases,
}

-- Above `x`: all are greater.
abbrev pub Above : Bytes → List Bytes → Type 0
Above x ys = All (λ y. text_less x y ≡ true) ys

abbrev pub IsAscending : List Bytes → Type 0
IsAscending [] = Unit
IsAscending (x ∷ xs) = Above x xs × IsAscending xs

Above-trans : (x y : Bytes) (zs : List Bytes) → text_less x y ≡ true → Above y zs → Above x zs
Above-trans x y [] h a = tt
Above-trans x y (z ∷ zs) h a = (text_less_trans x y z h a.0, Above-trans x y zs h a.1)

Above-emplace :
    (x v : Bytes) (ys : List Bytes) → text_less x v ≡ true → Above x ys → Above x (emplace v ys)
unfolding emplace
Above-emplace x v [] h a = (h, tt)
Above-emplace x v (y ∷ ys) h a = elim (Bool-cases (text_less v y)) [
  | inl before ↦ rw before (h, a)
  | inr behind ↦ elim (Bool-cases (text_less y v)) [
    | inl later ↦ rw (behind, later) (a.0, Above-emplace x v ys h a.1)
    | inr same ↦ rw (behind, same) a
  ]
]

pub emplace-IsAscending :
    (v : Bytes) (xs : List Bytes) → IsAscending xs → IsAscending (emplace v xs)
unfolding emplace
emplace-IsAscending v [] s = (tt, tt)
emplace-IsAscending v (x ∷ xs) s = elim (Bool-cases (text_less v x)) [
  | inl before ↦ rw before ((before, Above-trans v x xs before s.0), s)
  | inr behind ↦ elim (Bool-cases (text_less x v)) [
    | inl later ↦ rw (behind, later) (Above-emplace x v xs later s.0, emplace-IsAscending v xs s.1)
    | inr same ↦ rw (behind, same) s
  ]
]

pub member-emplace :
    (w v : Bytes) (xs : List Bytes) → member w (emplace v xs) ≡ (same_text w v || member w xs)
unfolding emplace member
member-emplace w v [] = refl
member-emplace w v (x ∷ xs) = elim (Bool-cases (text_less v x)) [
  | inl before ↦ rw before refl
  | inr behind ↦ elim (Bool-cases (text_less x v)) [
    | inl later ↦ rw (behind, later) (ground (arith, member-emplace w v xs))
    | inr same ↦
        let equal : v ≡ x = same_text_sound v x (unfold same_text in ground arith) in
        rw (behind, same, equal) (ground arith)
  ]
]

-- What is less than all is no member.
member-Above : (w : Bytes) (xs : List Bytes) → Above w xs → member w xs ≡ false
unfolding member
member-Above w [] a = refl
member-Above w (x ∷ xs) a = ground (arith, less-same_text w x a.0, member-Above w xs a.1)

member_head : (x : Bytes) (xs : List Bytes) → member x (x ∷ xs) ≡ true
unfolding member
member_head x xs = ground (arith, same_text_refl x)

-- Two lists with the same members.
abbrev pub SameMembers : List Bytes → List Bytes → Type 0
SameMembers xs ys = (w : Bytes) → member w xs ≡ member w ys

absent_below :
    (x y : Bytes) (xs ys : List Bytes)
    → Above y ys
    → SameMembers (x ∷ xs) (y ∷ ys)
    → text_less x y ≡ true
    → ⊥
absent_below x y xs ys a same h =
    let absent = member-Above x (y ∷ ys) (h, Above-trans x y ys h a) in
    cc (member_head x xs, same x, absent)

same_tail :
    (x : Bytes) (xs ys : List Bytes)
    → Above x xs
    → Above x ys
    → SameMembers (x ∷ xs) (x ∷ ys)
    → SameMembers xs ys
unfolding member
same_tail x xs ys a b same w = elim (Bool-cases (same_text w x)) [
  | inl equal ↦
      let front : w ≡ x = same_text_sound w x equal in
      rw front (member-Above x xs a ∙ sym (member-Above x ys b))
  | inr other ↦ rw other at (same w)
]

no_member : (w : Bytes) → member w [] ≡ false
unfolding member
no_member w = refl

pub ascending_unique :
    (xs ys : List Bytes) → IsAscending xs → IsAscending ys → SameMembers xs ys → xs ≡ ys
ascending_unique [] [] s t same = refl
ascending_unique [] (y ∷ ys) s t same = cc (same y, member_head y ys, no_member y)
ascending_unique (x ∷ xs) [] s t same = cc (same x, member_head x xs, no_member x)
ascending_unique (x ∷ xs) (y ∷ ys) s t same = elim (text_order_cases x y) [
  | inl less ↦ absurd (absent_below x y xs ys t.0 same less)
  | inr (inl less) ↦ absurd (absent_below y x ys xs s.0 (λ w. sym (same w)) less)
  | inr (inr e) ↦
      let above = subst (λ z. Above z xs) e s.0 in
      let same' = subst (λ z. SameMembers (z ∷ xs) (y ∷ ys)) e same in
      let tails = ascending_unique xs ys s.1 t.1 (same_tail y xs ys above t.0 same') in
      λ i. e i ∷ tails i
]

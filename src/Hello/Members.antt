-- ===== src/Hello/Members.antt =====
-- What each operation of `CapabilitySet` makes of the texts of a set.
use chat_hub.Prelude.{
  ◌≡◌, ◌⊎◌, ◌↔◌, inl, inr, refl, sym, subst, List, [], ◌∷◌, Bool, true, false, ◌||◌, ◌==◌, arith,
  Bytes, length, &&_iff,
}
use chat_hub.Hello.{
  same_text, member, CapabilitySet, contains, insert, of_values, intersect, is_empty,
}
use chat_hub.Hello.Sets.{contains-insert, contains-intersect, contains-of_values}
use chat_hub.Hello.TextOrder.{same_text_sound, same_text_refl}

-- The text stands in the list.
abbrev pub IsListed : Bytes → List Bytes → Type 0
IsListed w [] = ⊥
IsListed w (v ∷ values) = (w ≡ v) ⊎ IsListed w values

same_text_iff : (w v : Bytes) → (same_text w v ≡ true) ↔ (w ≡ v)
same_text_iff w v =
    (same_text_sound w v, λ e. subst (λ t. same_text w t ≡ true) e (same_text_refl w))

-- Either test, with what each of them means.
or_iff : {A B : Type 0} (x y : Bool) → (x ≡ true) ↔ A → (y ≡ true) ↔ B → ((x || y) ≡ true) ↔ (A ⊎ B)
or_iff true y left right = (λ h. inl (left.0 refl), λ h. refl)
or_iff {A} {B} false y left right = (λ h. inr (right.0 h), later)
  where
    later : A ⊎ B → y ≡ true
    later (inl a) = cc (left.1 a)
    later (inr b) = right.1 b

member_iff : (w : Bytes) (values : List Bytes) → (member w values ≡ true) ↔ IsListed w values
unfolding member
member_iff w [] = (λ h. cc h, λ h. absurd h)
member_iff w (v ∷ values) =
    or_iff (same_text w v) (member w values) (same_text_iff w v) (member_iff w values)

insert_iff :
    (a : CapabilitySet) (v w : Bytes)
    → (contains (insert a v) w ≡ true) ↔ ((w ≡ v) ⊎ (contains a w ≡ true))
insert_iff a v w =
    subst (λ t. (t ≡ true) ↔ ((w ≡ v) ⊎ (contains a w ≡ true))) (sym (contains-insert a v w))
      (or_iff (same_text w v) (contains a w) (same_text_iff w v) (λ h. h, λ h. h))

no_members :
    (values : List Bytes) → ((length values == 0) ≡ true) ↔ ((t : Bytes) → member t values ≡ false)
unfolding member
no_members [] = (λ h t. refl, λ h. refl)
no_members (v ∷ values) =
    (λ h. absurd (ground arith), λ h. let first = h v in ground (arith, first, same_text_refl v))

is_empty_iff : (a : CapabilitySet) → (is_empty a ≡ true) ↔ ((t : Bytes) → contains a t ≡ false)
unfolding contains
is_empty_iff a = no_members a.value

-- A set that is constructed from a list of texts contains exactly these; `insert` adds the one text
-- to those that the set contains; `intersect` contains exactly what both sets contain; and `empty`
-- is true exactly for a set that contains no text.
pub contains_iff :
    (values : List Bytes) (a b : CapabilitySet) (v w : Bytes)
    → ((contains (of_values values) w ≡ true) ↔ IsListed w values)
      × ((contains (insert a v) w ≡ true) ↔ ((w ≡ v) ⊎ (contains a w ≡ true)))
      × ((contains (intersect a b) w ≡ true) ↔ ((contains a w ≡ true) × (contains b w ≡ true)))
      × ((is_empty a ≡ true) ↔ ((t : Bytes) → contains a t ≡ false))
contains_iff values a b v w = (
  subst (λ t. (t ≡ true) ↔ IsListed w values) (sym (contains-of_values values w))
      (member_iff w values),
  insert_iff a v w,
  subst (λ t. (t ≡ true) ↔ ((contains a w ≡ true) × (contains b w ≡ true)))
      (sym (contains-intersect a b w)) (&&_iff (contains a w) (contains b w)),
  is_empty_iff a,
)

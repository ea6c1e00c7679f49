-- ===== src/Hello/Bounds.antt =====
-- How large the sets of capabilities are, and what holds of each of their texts.
use chat_hub.Prelude.{◌+◌, ◌≤◌, List, [], ◌∷◌, All, arith, Bytes, length, Bool-cases, inl, inr}
use chat_hub.Hello.{
  text_less, emplace, member, CapabilitySet, no_capabilities, insert, keep_common, intersect,
}

length-emplace : (v : Bytes) (xs : List Bytes) → length (emplace v xs) ≤ length xs + 1
unfolding emplace
length-emplace v [] = omega arith
length-emplace v (x ∷ xs) =
    let rest = length-emplace v xs in
    elim (Bool-cases (text_less v x)) [
      | inl less ↦ simp less (omega arith)
      | inr not_less ↦ simp not_less (elim (Bool-cases (text_less x v)) [
        | inl greater ↦ simp greater (omega (arith, rest))
        | inr same ↦ simp same (omega arith)
      ])
    ]

length-keep_common :
    (values : List Bytes) (b out : CapabilitySet)
    → length (keep_common values b out).value ≤ length values + length out.value
unfolding keep_common insert
length-keep_common [] b out = omega arith
length-keep_common (v ∷ values) b out =
    let longer = length-emplace v out.value in
    elim (Bool-cases (member v b.value)) [
      | inl shared ↦ simp shared (omega (arith, length-keep_common values b (insert out v), longer))
      | inr other ↦ simp other (omega (arith, length-keep_common values b out))
    ]

-- The common set is no larger than the first.
pub length-intersect : (a b : CapabilitySet) → length (intersect a b).value ≤ length a.value
unfolding intersect
length-intersect a b = omega (arith, length-keep_common a.value b no_capabilities)

module _ {ℓ} (P : Bytes → Type ℓ) where
  emplace-All : (v : Bytes) (xs : List Bytes) → P v → All P xs → All P (emplace v xs)
  unfolding emplace
  emplace-All v [] p h = (p, tt)
  emplace-All v (x ∷ xs) p h = elim (Bool-cases (text_less v x)) [
    | inl less ↦ simp less (p, h)
    | inr not_less ↦ simp not_less (elim (Bool-cases (text_less x v)) [
      | inl greater ↦ simp greater (h.0, emplace-All v xs p h.1)
      | inr same ↦ simp same h
    ])
  ]

  keep_common-All :
      (values : List Bytes) (b out : CapabilitySet)
      → All P values
      → All P out.value
      → All P (keep_common values b out).value
  unfolding keep_common insert
  keep_common-All [] b out h k = k
  keep_common-All (v ∷ values) b out h k = elim (Bool-cases (member v b.value)) [
    | inl shared ↦
        simp shared (keep_common-All values b (insert out v) h.1 (emplace-All v out.value h.0 k))
    | inr other ↦ simp other (keep_common-All values b out h.1 k)
  ]

  -- What holds of each text of the first set holds of each text of the common one.
  pub intersect-All : (a b : CapabilitySet) → All P a.value → All P (intersect a b).value
  unfolding intersect
  intersect-All a b h = keep_common-All a.value b no_capabilities h tt

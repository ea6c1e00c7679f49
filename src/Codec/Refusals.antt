-- ===== src/Codec/Refusals.antt =====
-- The order of the tests of the two decoders: the text, its root object, its request id, its data.
use Prim.Native.String.{String}
use chat_hub.Prelude.{◌≡◌, ◌↔◌, refl, sym, ap, subst, ◌∙◌, ◌⊎◌, inl, inr}
use chat_hub.Ids.UuidId.{RequestId}
use chat_hub.Outcome.{Outcome, ok, failed, failed-ok, failed-code}

-- The error has this code, and this id is passed out.
abbrev pub IsFailure : {A : Type 0} → Outcome A × RequestId → String → RequestId → Type 0
IsFailure decoded code id =
    (detail : String) × (decoded ≡ (failed (record { code = code; detail = detail }), id))

IsFailure-unique :
    {A : Type 0} (decoded : Outcome A × RequestId) {code code' : String} {id id' : RequestId}
    → IsFailure decoded code id
    → IsFailure decoded code' id'
    → (code ≡ code') × (id ≡ id')
IsFailure-unique decoded (d, h) (d', h') =
    let same = sym h ∙ h' in (failed-code (ap (λ p. p.0) same), ap (λ p. p.1) same)

-- What a decoder finds in a text: whether it is no JSON, or has no root object, or which one.
module _ {Root A : Type 0} (NoJson LacksRoot : Type 0) (HasRoot : Root → Type 0)
    (HasId : Root → RequestId → Type 0) (HasData : Root → A → Type 0) (out : RequestId) where
  -- Why a text is refused, by the code of the error, and the id that is passed out.
  abbrev pub Refuses : String → RequestId → Type 0
  Refuses code id =
      ((code ≡ "invalid_json") × (id ≡ out) × NoJson)
      ⊎ ((code ≡ "invalid_request_id")
          × (id ≡ out)
          × ((root : Root) × HasRoot root × ¬ ((id : RequestId) × HasId root id)))
      ⊎ ((code ≡ "invalid_request") × (id ≡ out) × LacksRoot)
      ⊎ ((code ≡ "invalid_request")
          × ((root : Root) × HasRoot root × HasId root id × ¬ ((a : A) × HasData root a)))

  because :
      (decoded : Outcome A × RequestId) {code : String} {id : RequestId}
      → ((code : String) (id : RequestId) → Refuses code id → IsFailure decoded code id)
      → IsFailure decoded code id
      → ((code' : String) × (id' : RequestId) × Refuses code' id')
      → Refuses code id
  because decoded {id = id} refuses failure (code', id', reason) =
      let (same_code, same_id) = IsFailure-unique decoded (refuses _ _ reason) failure in
      subst (λ c. Refuses c id) same_code (subst (Refuses code') same_id reason)

  -- A decoder that accepts what has all parts and refuses what lacks one fails only for these
  -- reasons.
  pub fails_iff :
      (decoded : Outcome A × RequestId)
      → ((root : Root) × HasRoot root) ⊎ NoJson ⊎ LacksRoot
      → ((root : Root)
          → ((id : RequestId) × HasId root id) ⊎ (¬ ((id : RequestId) × HasId root id)))
      → ((root : Root) → ((a : A) × HasData root a) ⊎ (¬ ((a : A) × HasData root a)))
      → ((id : RequestId) (a : A)
          → ((root : Root) × HasRoot root × HasId root id × HasData root a)
          → decoded ≡ (ok a, id))
      → ((code : String) (id : RequestId) → Refuses code id → IsFailure decoded code id)
      → (code : String) (id : RequestId) → IsFailure decoded code id ↔ Refuses code id
  fails_iff decoded roots ids datas accepts refuses code id = (
    λ failure. because decoded refuses failure (elim roots [
      | inl (root, has_root) ↦ elim (ids root) [
        | inl (id', has_id) ↦ elim (datas root) [
          | inl (a, has_data) ↦
              let accepted = accepts id' a (root, has_root, has_id, has_data) in
              absurd (failed-ok (ap (λ p. p.0) (sym failure.1 ∙ accepted)))
          | inr lacks ↦ (_, id', inr (inr (inr (refl, (root, has_root, has_id, lacks)))))
        ]
        | inr lacks ↦ (_, out, inr (inl (refl, refl, (root, has_root, lacks))))
      ]
      | inr (inl no_json) ↦ (_, out, inl (refl, refl, no_json))
      | inr (inr lacks) ↦ (_, out, inr (inr (inl (refl, refl, lacks))))
    ]),
    refuses code id,
  )

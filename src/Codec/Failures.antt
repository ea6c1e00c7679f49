-- ===== src/Codec/Failures.antt =====
-- With which error codes the steps of the two decoders fail.
use Prim.Native.String.{String}
use chat_hub.Prelude.{
  ℕ, ◌≡◌, ◌↔◌, refl, sym, ◌∙◌, List, [], ◌∷◌, ltb, ◌==◌, ◌||◌, Bool-cases, ◌⊎◌, inl, inr, Bytes,
  length, Option, none, some,
}
use chat_hub.Codec.{
  JsonLibrary, limited, read_capabilities, at_most_16, text_field, capability_list,
}
use chat_hub.Hello.{CapabilitySet, no_capabilities, insert}
use chat_hub.Outcome.{Outcome, ok, failed, failed-ok, require, and_then}

module _ {A : Type 0} where
  -- The outcome is an error of this code.
  abbrev pub Fails : String → Outcome A → Type 0
  Fails code o = (detail : String) × (o ≡ failed (record { code = code; detail = detail }))

  -- The outcome is a value or an error of this code.
  abbrev pub OnlyFails : String → Outcome A → Type 0
  OnlyFails code o = ((a : A) × (o ≡ ok a)) ⊎ Fails code o

  pub require-OnlyFails :
      (code detail : String) (o : Option A)
      → OnlyFails code (require (record { code = code; detail = detail }) o)
  unfolding require
  require-OnlyFails code detail none = inr (detail, refl)
  require-OnlyFails code detail (some a) = inl (a, refl)

  pub ok-OnlyFails : (code : String) (a : A) → OnlyFails code (ok a)
  ok-OnlyFails code a = inl (a, refl)

  -- Where it is known which values the outcome has: it has one, or it is an error.
  module _ {code : String} {o : Outcome A} {IsValue : A → Type 0}
      (value_iff : (a : A) → (o ≡ ok a) ↔ IsValue a) (only : OnlyFails code o) where
    pub value_or_not : ((a : A) × IsValue a) ⊎ (¬ ((a : A) × IsValue a))
    value_or_not = elim only [
      | inl (a, h) ↦ inl (a, (value_iff a).0 h)
      | inr (detail, h) ↦ inr (λ (a, is). failed-ok (sym h ∙ (value_iff a).1 is))
    ]

    pub no_value-Fails : ¬ ((a : A) × IsValue a) → Fails code o
    no_value-Fails lacks = elim only [
      | inl (a, h) ↦ absurd (lacks (a, (value_iff a).0 h))
      | inr error ↦ error
    ]

pub and_then-OnlyFails :
    {A B : Type 0} {code : String} {o : Outcome A} {next : A → Outcome B}
    → OnlyFails code o
    → ((a : A) → OnlyFails code (next a))
    → OnlyFails code (and_then o next)
unfolding and_then
and_then-OnlyFails (inl (a, h)) k = rw h (k a)
and_then-OnlyFails (inr (detail, h)) k = inr (detail, rw h refl)

limited-OnlyFails :
    (limit : ℕ) (detail : String) (text : Bytes)
    → OnlyFails "invalid_request" (limited limit detail text)
unfolding limited
limited-OnlyFails limit detail text =
    elim (Bool-cases (length text == 0 || ltb limit (length text))) [
      | inl bad ↦ inr (detail, rw bad refl)
      | inr good ↦ inl (text, rw good refl)
    ]

module _ {Value Object : Type 0} (json : JsonLibrary Value Object) where
  at_most_16-OnlyFails : (items : List Value) → OnlyFails "invalid_request" (at_most_16 json items)
  unfolding at_most_16
  at_most_16-OnlyFails items = elim (Bool-cases (ltb 16 (length items))) [
    | inl many ↦ inr ("capabilities 数量超限", rw many refl)
    | inr few ↦ inl (items, rw few refl)
  ]

  read_capabilities-OnlyFails :
      (items : List Value) (set : CapabilitySet)
      → OnlyFails "invalid_request" (read_capabilities json items set)
  unfolding read_capabilities
  read_capabilities-OnlyFails [] set = ok-OnlyFails _ set
  read_capabilities-OnlyFails (item ∷ items) set =
      and_then-OnlyFails (require-OnlyFails _ _ _) (λ text.
        and_then-OnlyFails (limited-OnlyFails 64 _ text)
          (λ text. read_capabilities-OnlyFails items (insert set text)))

  pub capability_list-OnlyFails :
      (fields : Object) → OnlyFails "invalid_request" (capability_list json fields)
  unfolding capability_list
  capability_list-OnlyFails fields = and_then-OnlyFails (require-OnlyFails _ _ _) (λ items.
      and_then-OnlyFails (at_most_16-OnlyFails items)
        (λ items. read_capabilities-OnlyFails items no_capabilities))

  pub text_field-OnlyFails :
      (limit : ℕ) (key missing bad_length : String) (fields : Object)
      → OnlyFails "invalid_request" (text_field json limit key missing bad_length fields)
  unfolding text_field
  text_field-OnlyFails limit key missing bad_length fields =
      and_then-OnlyFails (require-OnlyFails _ _ _) (limited-OnlyFails limit bad_length)

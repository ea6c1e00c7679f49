-- ===== src/Codec/Fields.antt =====
-- Which fields and lists of capabilities the codecs accept.
use Prim.Native.String.{String}
use chat_hub.Prelude.{
  ℕ, ◌≤◌, ◌<◌, ◌≡◌, ◌↔◌, refl, sym, ap, ◌∙◌, subst, List, [], ◌∷◌, arith, Bytes, length, some,
}
use chat_hub.Hello.{CapabilitySet, no_capabilities, insert, insert_each, of_values}
use chat_hub.Outcome.{ok, require, require_inv, and_then, and_then_inv, and_then_ok, require_ok}
use chat_hub.Codec.{
  JsonLibrary, limited, string_at, array_at, read_capabilities, at_most_16, text_field,
  capability_list,
}

-- Not empty, and `limit` bytes at most.
abbrev pub IsLimited : ℕ → Bytes → Type 0
IsLimited limit text = (0 < length text) × (length text ≤ limit)

limited_inv :
    (limit : ℕ) (detail : String) (text : Bytes) {out : Bytes}
    → limited limit detail text ≡ ok out
    → (text ≡ out) × IsLimited limit text
unfolding limited
limited_inv limit detail text h = (ground arith, (ground arith, ground arith))

pub limited_ok :
    (limit : ℕ) (detail : String) (text : Bytes)
    → IsLimited limit text
    → limited limit detail text ≡ ok text
unfolding limited
limited_ok limit detail text h = ground arith

pub ok_injective : {A : Type 0} {a b : A} → ok a ≡ ok b → a ≡ b
ok_injective h = cc

module _ {Value Object : Type 0} (json : JsonLibrary Value Object) where
  -- The items are these strings, each of 1 to 64 bytes.
  abbrev pub AreTexts : List Value → List Bytes → Type 0
  AreTexts [] [] = Unit
  AreTexts [] (t ∷ texts) = ⊥
  AreTexts (v ∷ items) [] = ⊥
  AreTexts (v ∷ items) (t ∷ texts) =
      (json.as_string v ≡ some t) × IsLimited 64 t × AreTexts items texts

  pub read_capabilities_inv :
      (items : List Value) (set : CapabilitySet) {out : CapabilitySet}
      → read_capabilities json items set ≡ ok out
      → (texts : List Bytes) × AreTexts items texts × (insert_each set texts ≡ out)
  unfolding read_capabilities insert_each
  read_capabilities_inv [] set h = ([], tt, cc)
  read_capabilities_inv (item ∷ items) set h =
      let (t, is_text, h') = and_then_inv _ _ h in
      let (t', fits, h'') = and_then_inv _ _ h' in
      let (same, size) = limited_inv 64 _ t fits in
      let (texts, all, inserted) = read_capabilities_inv items (insert set t') h'' in
      (
        t ∷ texts,
        (require_inv _ _ is_text, size, all),
        ap (λ u. insert_each (insert set u) texts) same ∙ inserted,
      )

  pub read_capabilities_ok :
      (items : List Value) (texts : List Bytes) (set : CapabilitySet)
      → AreTexts items texts
      → read_capabilities json items set ≡ ok (insert_each set texts)
  unfolding read_capabilities insert_each require and_then
  read_capabilities_ok [] [] set h = refl
  read_capabilities_ok [] (t ∷ texts) set h = absurd h
  read_capabilities_ok (v ∷ items) [] set h = absurd h
  read_capabilities_ok (v ∷ items) (t ∷ texts) set (is_text, size, all) =
      rw (is_text, limited_ok 64 "capability 长度非法" t size)
        (read_capabilities_ok items texts (insert set t) all)

  -- The array of capabilities and the set of its strings.
  abbrev pub HasCapabilities : Object → CapabilitySet → Type 0
  HasCapabilities fields set =
      (items : List Value) × (array_at json fields "capabilities" ≡ some items)
      × (length items ≤ 16)
      × ((texts : List Bytes) × AreTexts items texts × (of_values texts ≡ set))

  at_most_16_inv :
      (items : List Value) {out : List Value}
      → at_most_16 json items ≡ ok out
      → (items ≡ out) × (length items ≤ 16)
  unfolding at_most_16
  at_most_16_inv items h = (ground arith, ground arith)

  at_most_16_ok : (items : List Value) → length items ≤ 16 → at_most_16 json items ≡ ok items
  unfolding at_most_16
  at_most_16_ok items h = ground arith

  pub capability_list_iff :
      (fields : Object) (set : CapabilitySet)
      → (capability_list json fields ≡ ok set) ↔ HasCapabilities fields set
  unfolding capability_list of_values
  capability_list_iff fields set = (
    λ h.
        let (items, found, h') = and_then_inv _ _ h in
        let (items', few, h'') = and_then_inv _ _ h' in
        let (same, size) = at_most_16_inv items few in
        let (texts, all, inserted) = read_capabilities_inv items' no_capabilities h'' in
        (
          items,
          require_inv _ _ found,
          size,
          (texts, subst (λ l. AreTexts l texts) (sym same) all, inserted),
        ),
    λ (items, found, few, (texts, all, inserted)). and_then_ok _ (require_ok _ found) (
        and_then_ok _ (at_most_16_ok items few)
          (read_capabilities_ok items texts no_capabilities all ∙ ap ok inserted)),
  )

  pub text_field_iff :
      (limit : ℕ) (key missing bad_length : String) (fields : Object) (t : Bytes)
      → (text_field json limit key missing bad_length fields ≡ ok t)
        ↔ ((string_at json fields key ≡ some t) × IsLimited limit t)
  unfolding text_field
  text_field_iff limit key missing bad_length fields t = (
    λ h.
        let (t', found, h') = and_then_inv _ _ h in
        let (same, size) = limited_inv limit bad_length t' h' in
        (require_inv _ _ found ∙ ap some same, subst (IsLimited limit) same size),
    λ (found, size). and_then_ok _ (require_ok _ found) (limited_ok limit bad_length t size),
  )

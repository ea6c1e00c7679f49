-- ===== src/DevCa/Texts.antt =====
-- The five texts of `issueDevCa`, and the test that refuses an empty one.
use chat_hub.Prelude.{
  ◌≡◌, ◌≢◌, refl, sym, subst, [], ◌∷◌, Bool, true, false, ◌||◌, ◌==◌, if◌then◌else◌, Bytes, length,
  Option, none, some, arith,
}
use chat_hub.DevCa.{IssueDevCa, unless_empty, or_empty, hex_of, hex_or_none}

-- The library wrote this text, and it is not empty.
abbrev pub Wrote : Option Bytes → Bytes → Type 0
Wrote made text = (made ≡ some text) × (text ≢ [])

abbrev pub IsComplete : IssueDevCa → Type 0
IsComplete out =
    (out.ca_cert_pem ≢ [])
    × (out.ca_key_pem ≢ [])
    × (out.server_cert_pem ≢ [])
    × (out.server_key_pem ≢ [])
    × (out.ca_fingerprint_sha256 ≢ [])

||_false : (a b : Bool) → (a || b) ≡ false → (a ≡ false) × (b ≡ false)
||_false true b h = cc
||_false false b h = (refl, h)

length_test : (s : Bytes) → (length s == 0) ≡ false → s ≢ []
length_test [] h = cc
length_test (c ∷ s) h = cc

length_test_nonempty : (s : Bytes) → s ≢ [] → (length s == 0) ≡ false
length_test_nonempty [] h = absurd (h refl)
length_test_nonempty (c ∷ s) h = ground arith

chosen :
    (b : Bool) (out out' : IssueDevCa)
    → (if b then none else some out) ≡ some out'
    → (b ≡ false) × (out ≡ out')
chosen true out out' h = cc
chosen false out out' h = (refl, cc)

pub unless_empty_inv :
    (out out' : IssueDevCa) → unless_empty out ≡ some out' → (out ≡ out') × IsComplete out
unfolding unless_empty
unless_empty_inv out out' h =
    let (full, same) = chosen _ out out' h in
    let (rest3, e) = ||_false _ _ full in
    let (rest2, d) = ||_false _ _ rest3 in
    let (rest1, c) = ||_false _ _ rest2 in
    let (a, b) = ||_false _ _ rest1 in
    (same, (length_test _ a, length_test _ b, length_test _ c, length_test _ d, length_test _ e))

pub unless_empty_complete : (out : IssueDevCa) → IsComplete out → unless_empty out ≡ some out
unfolding unless_empty
unless_empty_complete out (a, b, c, d, e) = rw (
  length_test_nonempty _ a,
  length_test_nonempty _ b,
  length_test_nonempty _ c,
  length_test_nonempty _ d,
  length_test_nonempty _ e,
)

pub or_empty_inv : (made : Option Bytes) → or_empty made ≢ [] → Wrote made (or_empty made)
unfolding or_empty
or_empty_inv none h = absurd (h refl)
or_empty_inv (some text) h = (refl, h)

pub fingerprint_inv :
    (made : Option Bytes)
    → or_empty (hex_or_none made) ≢ []
    → (md : Bytes) × (made ≡ some md) × (or_empty (hex_or_none made) ≡ hex_of md)
unfolding or_empty hex_or_none
fingerprint_inv none h = absurd (h refl)
fingerprint_inv (some md) h = (md, refl, refl)

pub or_empty_text : (made : Option Bytes) → ((t : Bytes) × Wrote made t) → or_empty made ≢ []
unfolding or_empty
or_empty_text made (t, (e, full)) = subst (λ x. or_empty x ≢ []) (sym e) full

hex_of_nonempty : (md : Bytes) → md ≢ [] → hex_of md ≢ []
unfolding hex_of
hex_of_nonempty [] h = absurd (h refl)
hex_of_nonempty (b ∷ md) h = λ e. cc e

pub fingerprint_text :
    (made : Option Bytes) → ((md : Bytes) × Wrote made md) → or_empty (hex_or_none made) ≢ []
unfolding or_empty hex_or_none
fingerprint_text made (md, (e, full)) =
    subst (λ x. or_empty (hex_or_none x) ≢ []) (sym e) (hex_of_nonempty md full)

-- ===== src/Prelude/Changes.antt =====
-- Chains of changes, each described by a law.
use mathlib.Core.Path.{◌≡◌, ap, ◌∙◌}

-- What one more change leaves.
pub after {ℓ} : {A : Type ℓ} (f : A → A) {a b c : A} → a ≡ f b → b ≡ c → a ≡ f c
after f h e = h ∙ ap f e

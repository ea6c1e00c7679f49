-- ===== src/Attempt.antt =====
-- A sequence of calls of an outside library: each may fail, and each may change the world.
use chat_hub.Prelude.{◌≡◌, refl, Option, none, some}

abbrev pub Attempt {ℓ κ} : Type ℓ → Type κ → Type (ℓ ⊔ κ)
Attempt World A = World → Option (A × World)

module _ {ℓ κ} {World : Type ℓ} {A : Type κ} where
  unfoldable pub pure : A → Attempt World A
  pure a w = some (a, w)

  -- A call that does not depend on the world.
  unfoldable pub lift : Option A → Attempt World A
  lift none w = none
  lift (some a) w = some (a, w)

  pub pure_inv : {a b : A} {w v : World} → pure a w ≡ some (b, v) → (a ≡ b) × (w ≡ v)
  unfolding pure
  pure_inv h = (cc, cc)

  pub lift_inv :
      (o : Option A) {b : A} {w v : World} → lift o w ≡ some (b, v) → (o ≡ some b) × (w ≡ v)
  unfolding lift
  lift_inv none h = cc
  lift_inv (some a) h = (cc, cc)

module _ {ℓ κ μ} {World : Type ℓ} {A : Type κ} {B : Type μ} where
  continue : (A → Attempt World B) → Option (A × World) → Option (B × World)
  continue next none = none
  continue next (some (a, w)) = next a w

  infixl 5 ◌>>=◌
  unfoldable pub ◌>>=◌ : Attempt World A → (A → Attempt World B) → Attempt World B
  unfolding continue
  ◌>>=◌ m next w = continue next (m w)

  continue_inv :
      (next : A → Attempt World B) (o : Option (A × World)) {r : B × World}
      → continue next o ≡ some r
      → (a : A) × (v : World) × (o ≡ some (a, v)) × (next a v ≡ some r)
  unfolding continue
  continue_inv next none h = cc
  continue_inv next (some (a, v)) h = (a, v, refl, h)

  -- What a successful chain did.
  pub bind_inv :
      (m : Attempt World A) (next : A → Attempt World B) {w : World} {r : B × World}
      → (m >>= next) w ≡ some r
      → (a : A) × (v : World) × (m w ≡ some (a, v)) × (next a v ≡ some r)
  unfolding ◌>>=◌
  bind_inv m next {w} h = continue_inv next (m w) h

  pub bind_some :
      (m : Attempt World A) (next : A → Attempt World B) {w v : World} {a : A} {r : B × World}
      → m w ≡ some (a, v)
      → next a v ≡ some r
      → (m >>= next) w ≡ some r
  unfolding ◌>>=◌
  bind_some m next h k = rw h k

-- The chain returns from this world.
abbrev pub Returns {ℓ κ} : {World : Type ℓ} {A : Type κ} → Attempt World A → World → Type (ℓ ⊔ κ)
Returns {World} {A} m w = (a : A) × (v : World) × (m w ≡ some (a, v))

pub lift-Returns {ℓ κ} :
    {World : Type ℓ} {A : Type κ} (o : Option A) (w : World)
    → ((a : A) × (o ≡ some a))
    → Returns (lift o) w
unfolding lift
lift-Returns o w (a, h) = (a, w, rw h refl)

module _ {ℓ κ μ} {World : Type ℓ} {A : Type κ} {B : Type μ} where
  pub bind-Returns :
      (m : Attempt World A) (next : A → Attempt World B) {w : World}
      → Returns m w
      → ((a : A) (v : World) → m w ≡ some (a, v) → Returns (next a) v)
      → Returns (m >>= next) w
  bind-Returns m next (a, v, h) later = let (b, u, k) = later a v h in (b, u, bind_some m next h k)

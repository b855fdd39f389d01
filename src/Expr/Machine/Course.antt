-- ===== src/Expr/Machine/Course.antt =====
-- How a run of a compiled expression goes: on with a value, or to one of its ends.
use argus.Prelude.{◌≡◌, refl}
use argus.Text.{Text}

-- RunExpr ends with a service to wait for, or with empty texts where an operator fails; it does not
-- end where it walks a group that contains itself.
pub data Ran {ℓ} (A : Type ℓ) : Type ℓ where
  value : A → Ran A
  waits : Text → Ran A
  stopped : Ran A
  endless : Ran A

module _ {ℓ κ} {A : Type ℓ} {B : Type κ} where
  infixl 1 ◌>>=◌
  abbrev pub ◌>>=◌ : Ran A → (A → Ran B) → Ran B
  value a >>= f = f a
  waits t >>= f = waits t
  stopped >>= f = stopped
  endless >>= f = endless

  pub bind_congr : (r : Ran A) {f g : A → Ran B} → ((a : A) → f a ≡ g a) → (r >>= f) ≡ (r >>= g)
  bind_congr (value a) h = h a
  bind_congr (waits t) h = refl
  bind_congr stopped h = refl
  bind_congr endless h = refl

pub bind_assoc {ℓ κ μ} :
    {A : Type ℓ} {B : Type κ} {C : Type μ} (r : Ran A) (f : A → Ran B) (g : B → Ran C)
    → (r >>= f >>= g) ≡ (r >>= λ a. f a >>= g)
bind_assoc (value a) f g = refl
bind_assoc (waits t) f g = refl
bind_assoc stopped f g = refl
bind_assoc endless f g = refl

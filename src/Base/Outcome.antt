-- ===== src/Base/Outcome.antt =====
-- What running a piece of kernel code comes to.
use mathlib.Core.Path.{◌≡◌, refl, subst}
use mathlib.Core.Bool.{Bool, true, false}
use rock.Base.Tests.{if◌then◌else◌}
use mathlib.Core.Option.{Option, none, some}

-- `fault` is a NULL dereference or another undefined access, `deadlock` a spin on a lock that the
-- same flow holds, and `out_of_fuel` a loop that did not end within the rounds given.
pub data Run {ℓ} (A : Type ℓ) : Type ℓ where
  ok : A → Run A
  fault deadlock out_of_fuel : Run A

infixl 5 ◌>>=◌
abbrev pub ◌>>=◌ {ℓ κ} : {A : Type ℓ} {B : Type κ} → Run A → (A → Run B) → Run B
ok a >>= f = f a
fault >>= f = fault
deadlock >>= f = deadlock
out_of_fuel >>= f = out_of_fuel

pub bind-ext {ℓ κ} :
    {A : Type ℓ} {B : Type κ} (r : Run A) (f g : A → Run B)
    → ((a : A) → r ≡ ok a → f a ≡ g a)
    → (r >>= f) ≡ (r >>= g)
bind-ext (ok a) f g h = h a refl
bind-ext fault f g h = refl
bind-ext deadlock f g h = refl
bind-ext out_of_fuel f g h = refl

abbrev Ends {ℓ κ} : {A : Type ℓ} → (A → Type κ) → Run A → Type κ
Ends P (ok a) = P a
Ends P r = Unit

-- If a run ends in a value, the value satisfies `P`.
pub record Leaves {ℓ κ} {A : Type ℓ} (r : Run A) (P : A → Type κ) : Type (ℓ ⊔ κ) where
  pub at : (a : A) → r ≡ ok a → P a

module _ {ℓ κ} {A : Type ℓ} {P : A → Type κ} where
  pub Leaves-ok : {a : A} → P a → Leaves (ok a) P
  Leaves-ok h = record { at = λ b e. subst (Ends P) e h }

  pub Leaves-fault : Leaves fault P
  Leaves-fault = record { at = λ b e. absurd cc }

  pub Leaves-deadlock : Leaves deadlock P
  Leaves-deadlock = record { at = λ b e. absurd cc }

  pub Leaves-out_of_fuel : Leaves out_of_fuel P
  Leaves-out_of_fuel = record { at = λ b e. absurd cc }

pub Leaves-weaken {ℓ κ μ} :
    {A : Type ℓ} {P : A → Type κ} {Q : A → Type μ} {r : Run A}
    → Leaves r P
    → ((a : A) → P a → Q a)
    → Leaves r Q
Leaves-weaken h k = record { at = λ a e. k a (h.at a e) }

module _ {ℓ κ μ} {A : Type ℓ} {B : Type κ} {Q : B → Type μ} where
  pub Leaves-bind :
      (r : Run A) (f : A → Run B) → ((a : A) → r ≡ ok a → Leaves (f a) Q) → Leaves (r >>= f) Q
  Leaves-bind (ok a) f h = h a refl
  Leaves-bind fault f h = Leaves-fault
  Leaves-bind deadlock f h = Leaves-deadlock
  Leaves-bind out_of_fuel f h = Leaves-out_of_fuel

  -- a run that goes on by the cases of an option, or of a test
  pub Leaves-option :
      (o : Option A) (n : Run B) (f : A → Run B)
      → (o ≡ none → Leaves n Q)
      → ((a : A) → o ≡ some a → Leaves (f a) Q)
      → Leaves (elim o [ none ↦ n | some a ↦ f a ]) Q
  Leaves-option none n f hn hs = hn refl
  Leaves-option (some a) n f hn hs = hs a refl

module _ {κ μ} {B : Type κ} {Q : B → Type μ} where
  pub Leaves-test :
      (b : Bool) (x y : Run B)
      → (b ≡ true → Leaves x Q)
      → (b ≡ false → Leaves y Q)
      → Leaves (elim b [ true ↦ x | false ↦ y ]) Q
  Leaves-test true x y hx hy = hx refl
  Leaves-test false x y hx hy = hy refl

  pub Leaves-if :
      (b : Bool) (x y : Run B)
      → (b ≡ true → Leaves x Q)
      → (b ≡ false → Leaves y Q)
      → Leaves (if b then x else y) Q
  Leaves-if true x y hx hy = hx refl
  Leaves-if false x y hx hy = hy refl

-- ===== src/Base/Tests.antt =====
-- Boolean tests on the native numbers, and the conditional.
use Prim.Native.Nat.{ℕ, compare, Ordering}
use mathlib.Core.Path.{◌≡◌, refl, ap₂}
use mathlib.Core.Logic.{◌≢◌, ◌↔◌, ◌⊎◌, inl, inr}
use mathlib.Core.Bool.{Bool, true, false}
use mathlib.Core.List.{List, [], ◌∷◌}
use native.Mathlib.Omega.{arith}

abbrev pub ltb : ℕ → ℕ → Bool
ltb a b = elim (compare a b) [ Ordering.lt ↦ true | _ ↦ false ]

abbrev pub leb : ℕ → ℕ → Bool
leb a b = elim (compare a b) [ Ordering.gt ↦ false | _ ↦ true ]

infix 50 ◌==◌
abbrev pub ◌==◌ : ℕ → ℕ → Bool
a == b = elim (compare a b) [ Ordering.eq ↦ true | _ ↦ false ]

infix 1 if◌then◌else◌
abbrev pub if◌then◌else◌ {ℓ} : {A : Type ℓ} → Bool → A → A → A
if true then x else y = x
if false then x else y = y

pub ==_iff : (a b : ℕ) → ((a == b) ≡ true) ↔ (a ≡ b)
==_iff a b = ground arith

pub Bool-cases : (b : Bool) → (b ≡ true) ⊎ (b ≡ false)
Bool-cases true = inl refl
Bool-cases false = inr refl

-- Two strings are equal or not.
pub same_or_not : (j k : List ℕ) → (j ≡ k) ⊎ (j ≢ k)
same_or_not [] [] = inl refl
same_or_not [] (y ∷ k) = inr (λ e. absurd cc)
same_or_not (x ∷ j) [] = inr (λ e. absurd cc)
same_or_not (x ∷ j) (y ∷ k) = elim (Bool-cases (x == y)) [
  | inr apart ↦ inr (λ e. let head : x ≡ y = cc in absurd (ground (arith, apart, head)))
  | inl same ↦ elim (same_or_not j k) [
    | inl tail ↦ let head : x ≡ y = ground (arith, same) in inl (ap₂ ◌∷◌ head tail)
    | inr apart ↦ inr (λ e. apart cc)
  ]
]

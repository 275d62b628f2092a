-- ===== src/Fayt/Models.antt =====
-- Concrete operations that meet the laws of `Fayt`, for running the model on examples.
use rock.Base.{
  ◌==◌, ==_iff, ap₂, Bool-cases, subst, ◌≢◌, inl, inr, Option, none, some, List, [], ◌∷◌, ℕ, ◌+◌,
  ◌-◌, ◌*◌, ◌/◌, ◌%◌, ◌≤◌, ◌<◌, ◌≡◌, refl, ◌⊎◌, Bool, true, false, ◌&&◌, leb, ltb, ◌==◌,
  if◌then◌else◌, arith,
}
use native.Mathlib.Nat.{mul-mod_left}
use rock.Fayt.Tables.{HashTable, BitmapAlloc}
use rock.Fayt.{BitOps, Rounding, MemOps}

abbrev pub bits : BitOps
bits = record {
  Bits = ℕ → Bool;
  bit_test = λ b j. b j;
  bit_set = λ b i j. if i == j then true else b j;
  bit_clear = λ b i j. if i == j then false else b j;
  test-set = λ b i j. refl;
  test-clear = λ b i j. refl;
}

abbrev pub roundup : ℕ → ℕ → ℕ
roundup a b = (a + b - 1) / b

pub roundup_bounds : (a b : ℕ) → 0 < b → (a ≤ roundup a b * b) × (roundup a b * b < a + b)
roundup_bounds a b h = grind arith

pub multiple-mod : (a b : ℕ) → a * b % b ≡ 0
multiple-mod a b = mul-mod_left a b

abbrev pub rounding : Rounding
rounding = record {
  div_roundup = roundup;
  align_up = λ a b. roundup a b * b;
  div_roundup_bounds = λ a b h w. roundup_bounds a b h;
  align_up_bounds = λ a b h w. roundup_bounds a b h;
  align_up-mod = λ a b h w. multiple-mod (roundup a b) b;
}

abbrev pub fill : (ℕ → ℕ) → ℕ → ℕ → ℕ → ℕ → ℕ
fill m p v n q = if leb p q && ltb q (p + 8 * n) then v else m q

pub fill_inside : (m : ℕ → ℕ) (p v n k : ℕ) → k < n → fill m p v n (p + 8 * k) ≡ v
fill_inside m p v n k h = ground arith

pub fill_outside : (m : ℕ → ℕ) (p v n q : ℕ) → (q + 8 ≤ p) ⊎ (p + 8 * n ≤ q) → fill m p v n q ≡ m q
fill_outside m p v n q h = ground arith

abbrev pub words : MemOps
words = record {
  Mem = ℕ → ℕ;
  load64 = λ m q. m q;
  store64 = λ m p v q. if p == q then v else m q;
  memset64 = fill;
  load-store = λ m p v q hp hq. refl;
  load-memset_inside = fill_inside;
  load-memset_outside = fill_outside;
}

abbrev pub same_bytes : List ℕ → List ℕ → Bool
same_bytes [] [] = true
same_bytes [] (y ∷ k) = false
same_bytes (x ∷ j) [] = false
same_bytes (x ∷ j) (y ∷ k) = (x == y) && same_bytes j k

same_bytes_self : (k : List ℕ) → same_bytes k k ≡ true
same_bytes_self [] = refl
same_bytes_self (x ∷ k) =
    let here : (x == x) ≡ true = ground arith in rw (here, same_bytes_self k) refl

both : (a b : Bool) → (a && b) ≡ true → (a ≡ true) × (b ≡ true)
both true b e = (refl, e)
both false b e = absurd cc

same_bytes-equal : (j k : List ℕ) → same_bytes j k ≡ true → j ≡ k
same_bytes-equal [] [] e = refl
same_bytes-equal [] (y ∷ k) e = absurd cc
same_bytes-equal (x ∷ j) [] e = absurd cc
same_bytes-equal (x ∷ j) (y ∷ k) e =
    let parts = both (x == y) (same_bytes j k) e in
    ap₂ ◌∷◌ ((==_iff x y).0 parts.0) (same_bytes-equal j k parts.1)

same_bytes_ne : (j k : List ℕ) → j ≢ k → same_bytes j k ≡ false
same_bytes_ne j k ne = elim (Bool-cases (same_bytes j k)) [
  | inl e ↦ absurd (ne (same_bytes-equal j k e))
  | inr e ↦ e
]

abbrev pub lookup : {V : Type 0} → List (List ℕ × V) → List ℕ → Option V
lookup [] k = none
lookup (e ∷ t) k = let rest = lookup t k in if same_bytes k e.0 then some e.1 else rest

pub lookup_self :
    {V : Type 0} (t : List (List ℕ × V)) (k : List ℕ) (v : V) → lookup ((k, v) ∷ t) k ≡ some v
lookup_self t k v = rw (same_bytes_self k) refl

pub lookup_ne :
    {V : Type 0} (t : List (List ℕ × V)) (k j : List ℕ) (v : V)
    → j ≢ k
    → lookup ((k, v) ∷ t) j ≡ lookup t j
lookup_ne t k j v ne = rw (same_bytes_ne j k ne) refl

pub pushed_self :
    {V : Type 0} (t t' : List (List ℕ × V)) (k : List ℕ) (v : V)
    → some ((k, v) ∷ t) ≡ some t'
    → lookup t' k ≡ some v
pushed_self t t' k v e =
    let same : (k, v) ∷ t ≡ t' = cc in subst (λ x. lookup x k ≡ some v) same (lookup_self t k v)

pub pushed_ne :
    {V : Type 0} (t t' : List (List ℕ × V)) (k j : List ℕ) (v : V)
    → some ((k, v) ∷ t) ≡ some t'
    → j ≢ k
    → lookup t' j ≡ lookup t j
pushed_ne t t' k j v e ne =
    let same : (k, v) ∷ t ≡ t' = cc in
    subst (λ x. lookup x j ≡ lookup t j) same (lookup_ne t k j v ne)

-- an association list
abbrev pub assoc_of : (V : Type 0) → HashTable V
assoc_of V = record {
  Table = List (List ℕ × V);
  zeroed = [];
  search = lookup;
  push = λ t k v. some ((k, v) ∷ t);
  search-zeroed = λ k. refl;
  search-push = λ t t' k v fresh e. pushed_self t t' k v e;
  search-push_ne = λ t t' k j v fresh e ne. pushed_ne t t' k j v e ne;
}

abbrev pub assoc : HashTable ℕ
assoc = assoc_of ℕ

-- the numbers below the bitmap's are taken
abbrev pub counter : BitmapAlloc
counter = record { Bitmap = ℕ; zeroed = 0; bitmap_alloc = λ b. some (b, b + 1) }

-- ===== src/Apic/Bytes.antt =====
-- Reads of the bytes of a table.
use rock.Base.{
  ℕ, zero, suc, ◌+◌, ◌^◌, ◌<◌, ◌≤◌, ◌≡◌, refl, ap, ◌∙◌, subst, true, List, [], ◌∷◌, ◌++◌, leb, drop,
  take, length, ok, bytes_of, arith, length-drop,
}
use rock.Apic.{number_of, read}

pub length-append : (xs ys : List ℕ) → length (xs ++ ys) ≡ length xs + length ys
length-append [] ys = omega arith
length-append (x ∷ xs) ys = omega (arith, length-append xs ys)

pub append_assoc : (xs ys zs : List ℕ) → xs ++ (ys ++ zs) ≡ (xs ++ ys) ++ zs
append_assoc [] ys zs = refl
append_assoc (x ∷ xs) ys zs = ap (λ t. x ∷ t) (append_assoc xs ys zs)

drop-append : (xs ys : List ℕ) (k : ℕ) → drop (length xs + k) (xs ++ ys) ≡ drop k ys
drop-append [] ys k = ap (λ j. drop j ys) (omega arith)
drop-append (x ∷ xs) ys k =
    let next : suc (length xs) + k ≡ suc (length xs + k) = omega arith in
    ap (λ j. drop j (x ∷ xs ++ ys)) next ∙ drop-append xs ys k

take-append : (n : ℕ) (xs ys : List ℕ) → n ≤ length xs → take n (xs ++ ys) ≡ take n xs
take-append zero xs ys h = refl
take-append (suc n) [] ys h = absurd (omega arith)
take-append (suc n) (x ∷ xs) ys h = ap (λ t. x ∷ t) (take-append n xs ys (omega arith))

drop-append_le : (k : ℕ) (xs ys : List ℕ) → k ≤ length xs → drop k (xs ++ ys) ≡ drop k xs ++ ys
drop-append_le zero xs ys h = refl
drop-append_le (suc k) [] ys h = absurd (omega arith)
drop-append_le (suc k) (x ∷ xs) ys h = drop-append_le k xs ys (omega arith)

-- a read within a part of the table
pub read-part :
    (xs p ys : List ℕ) (k n : ℕ)
    → k + n ≤ length p
    → read (xs ++ (p ++ ys)) (length xs + k) n ≡ ok (number_of (take n (drop k p)))
read-part xs p ys k n h =
    let inside : leb (length xs + k + n) (length (xs ++ (p ++ ys))) ≡ true =
      ground (arith, h, length-append xs (p ++ ys), length-append p ys) in
    let bytes : take n (drop (length xs + k) (xs ++ (p ++ ys))) ≡ take n (drop k p) =
      ap (take n) (drop-append xs (p ++ ys) k ∙ drop-append_le k p ys (omega (arith, h)))
      ∙ take-append n (drop k p) ys (omega (arith, h, length-drop k p)) in
    rw (inside, bytes) refl

pub number_of_one : (x : ℕ) → x < 256 → number_of (bytes_of 1 x) ≡ x
number_of_one x h = omega (arith, h)

pub number_of_two : (x : ℕ) → x < 2 ^ 16 → number_of (bytes_of 2 x) ≡ x
number_of_two x h = omega (arith, h)

pub number_of_four : (x : ℕ) → x < 2 ^ 32 → number_of (bytes_of 4 x) ≡ x
number_of_four x h = omega (arith, h)

module _ (xs ys : List ℕ) where
  -- a read at the start of the part
  pub read-start :
      (p : List ℕ) (n : ℕ)
      → n ≤ length p
      → read (xs ++ (p ++ ys)) (length xs) n ≡ ok (number_of (take n p))
  read-start p n h =
      let at : length xs + 0 ≡ length xs = omega arith in
      subst (λ i. read (xs ++ (p ++ ys)) i n ≡ ok (number_of (take n p))) at
        (read-part xs p ys 0 n (omega (arith, h)))

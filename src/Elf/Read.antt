-- ===== src/Elf/Read.antt =====
-- elf64_read within the buffer.
use rock.Base.{
  ℕ, zero, suc, ◌∷◌, Bool-cases, inl, inr, ◌+◌, ◌-◌, ◌^◌, ◌≤◌, ◌<◌, ◌≡◌, refl, sym, ◌∙◌, some, List,
  [], ltb, leb, length, take, drop, length-drop, take-all, ok, sign_extend, int_lt, min, arith, ap,
  get_elem?, get_elem?-inside, add64,
}
use rock.Elf.{ElfData, data_to_read, memcpy_from, elf64_read}

sign_extend-small : (x : ℕ) → x < 2 ^ 31 → sign_extend x ≡ x
sign_extend-small x h = ground arith

int_lt-small : (a b : ℕ) → a < 2 ^ 31 → b < 2 ^ 31 → int_lt a b ≡ ltb a b
int_lt-small a b ha hb = ground arith

to_read-small :
    (n offset cnt : ℕ)
    → n < 2 ^ 31
    → offset ≤ n
    → cnt < 2 ^ 63
    → data_to_read n offset cnt ≡ min cnt (n - offset)
to_read-small n offset cnt hn ho hc = ground arith

module _ {ℓ} {A : Type ℓ} where
  pub take-min : (n : ℕ) (xs : List A) → take (min n (length xs)) xs ≡ take n xs
  take-min n xs = elim (Bool-cases (leb n (length xs))) [
    | inl short ↦ let e : min n (length xs) ≡ n = ground (arith, short) in rw e refl
    | inr long ↦
        let e : min n (length xs) ≡ length xs = ground (arith, long) in
        rw (e, take-all (length xs) xs (omega arith), take-all n xs (ground (arith, long))) refl
  ]

  pub length-take : (n : ℕ) (xs : List A) → length (take n xs) ≡ min n (length xs)
  length-take zero xs = omega arith
  length-take (suc n) [] = omega arith
  length-take (suc n) (x ∷ xs) = omega (arith, length-take n xs)

  drop-all : (n : ℕ) (xs : List A) → length xs ≤ n → drop n xs ≡ []
  drop-all zero [] h = refl
  drop-all zero (x ∷ xs) h = absurd (omega arith)
  drop-all (suc n) [] h = refl
  drop-all (suc n) (x ∷ xs) h = drop-all n xs (omega arith)

  take-nil : (n : ℕ) (xs : List A) → xs ≡ [] → take n xs ≡ []
  take-nil zero xs e = refl
  take-nil (suc n) xs e = rw e refl

-- the file's length is that of its buffer, and an `int`
pub record Honest (f : ElfData) (b : List ℕ) : Type 0 where
  pub there : f.buffer ≡ some b
  pub claims : f.claimed ≡ length b
  pub small : length b < 2 ^ 31

length-read :
    (b : List ℕ) (offset cnt : ℕ)
    → offset ≤ length b
    → length (take cnt (drop offset b)) ≡ min cnt (length b - offset)
length-read b offset cnt h = length-take cnt (drop offset b) ∙ rw (length-drop offset b) refl

drop-get_elem? :
    (b : List ℕ) (i : ℕ) (x : ℕ) → get_elem? b i ≡ some x → drop i b ≡ x ∷ drop (i + 1) b
drop-get_elem? [] i x e = absurd cc
drop-get_elem? (y ∷ ys) zero x e =
    let same : y ≡ x = cc in
    let one : 0 + 1 ≡ 1 = omega arith in
    ap (λ z. z ∷ ys) same ∙ ap (λ n. x ∷ drop n (y ∷ ys)) (sym one)
drop-get_elem? (y ∷ ys) (suc i) x e =
    let next : suc i + 1 ≡ suc (i + 1) = omega arith in
    drop-get_elem? ys i x e ∙ ap (λ n. x ∷ drop n (y ∷ ys)) (sym next)

memcpy_from-inside :
    (b : List ℕ) (around : ℕ → ℕ) (offset cnt : ℕ)
    → length b < 2 ^ 31
    → offset + cnt ≤ length b
    → memcpy_from b around offset cnt ≡ take cnt (drop offset b)
unfolding memcpy_from
memcpy_from-inside b around offset zero w h = refl
memcpy_from-inside b around offset (suc cnt) w h =
    let (x, there) = get_elem?-inside b offset (omega (arith, h)) in
    let next : add64 offset 1 ≡ offset + 1 = omega (arith, w, h) in
    let rest = memcpy_from-inside b around (offset + 1) cnt w (omega (arith, h)) in
    rw (memcpy_from, there, next, rest, drop-get_elem? b offset x there) refl

memcpy-inside :
    (b : List ℕ) (around : ℕ → ℕ) (offset cnt : ℕ)
    → length b < 2 ^ 31
    → offset ≤ length b
    → memcpy_from b around offset (min cnt (length b - offset)) ≡ take cnt (drop offset b)
memcpy-inside b around offset cnt w h =
    let all : take (min cnt (length b - offset)) (drop offset b) ≡ take cnt (drop offset b) =
      rw (sym (length-drop offset b)) (take-min cnt (drop offset b)) in
    memcpy_from-inside b around offset (min cnt (length b - offset)) w (ground arith) ∙ all

-- If the length of the file is that of its buffer, elf64_read at an offset that is not negative
-- copies the bytes from the offset on, as many as asked for and there are, none past the end, and
-- returns how many it copied.
pub elf64_read_lem :
    (f : ElfData) (b : List ℕ) (offset cnt : ℕ)
    → Honest f b
    → offset < 2 ^ 31
    → cnt < 2 ^ 63
    → elf64_read f offset cnt ≡ ok (length (take cnt (drop offset b)), take cnt (drop offset b))
unfolding elf64_read
elf64_read_lem f b offset cnt h ho hc =
    let least : int_lt (length b) offset ≡ ltb (length b) offset = int_lt-small _ _ h.small ho in
    let small = h.small in
    elim (Bool-cases (ltb (length b) offset)) [
      | inl past ↦
          let none_left : take cnt (drop offset b) ≡ [] =
            take-nil cnt _ (drop-all offset b (ground (arith, past))) in
          rw (elf64_read, h.there, h.claims, least, past, none_left) refl
      | inr inside ↦
          let le : offset ≤ length b = ground (arith, inside) in
          let count : data_to_read (length b) offset cnt ≡ min cnt (length b - offset) =
            to_read-small _ _ _ h.small le hc in
          let size : sign_extend (min cnt (length b - offset)) ≡ min cnt (length b - offset) =
            sign_extend-small _ (omega arith) in
          rw
            (
              elf64_read,
              h.there,
              h.claims,
              least,
              inside,
              count,
              size,
              sign_extend-small offset ho,
              memcpy-inside b f.around.byte offset cnt small le,
              length-read b offset cnt le,
            )
            refl
    ]

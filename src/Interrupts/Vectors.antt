-- ===== src/Interrupts/Vectors.antt =====
-- `idt_alloc_vector` takes the first vector that is not reserved.
use rock.Base.{
  minus_one_int, ℕ, zero, suc, ◌+◌, ◌<◌, ◌≡◌, ◌≢◌, refl, ap, subst, ◌⊎◌, inl, inr, some, List, [],
  ◌∷◌, set, get_elem?, ◌==◌, Bool-cases, arith,
}
use rock.Interrupts.{Vector, alloc_vector_from, idt_alloc_vector}

at_index : {A : Type 0} {x : A} {i j : ℕ} → i ≡ j → Path (ℕ × A) (i, x) (j, x)
at_index {x = x} e = ap (λ k. (k, x)) e

module _ {H : Type 0} (handler : H) (ptr : ℕ) where
  -- every vector before the `n`-th is reserved
  abbrev pub Reserved : List (Vector H) → ℕ → Type 0
  Reserved vs n = (j : ℕ) (v : Vector H) → j < n → get_elem? vs j ≡ some v → v.reserved ≢ 0

  pub record Takes (i : ℕ) (vs : List (Vector H)) (r : ℕ × List (Vector H)) : Type 0 where
    pub index : ℕ
    pub vector : Vector H
    pub there : get_elem? vs index ≡ some vector
    pub was_free : vector.reserved ≡ 0
    pub first : Reserved vs index
    pub result :
        r ≡ (i + index, set vs index (record { handler = some handler; ptr = ptr; reserved = 1 }))

  pub record Full (vs : List (Vector H)) (r : ℕ × List (Vector H)) : Type 0 where
    pub all_reserved : (j : ℕ) (v : Vector H) → get_elem? vs j ≡ some v → v.reserved ≢ 0
    pub result : r ≡ (minus_one_int, vs)

  from_outcome :
      (i : ℕ) (vs : List (Vector H))
      → Takes i vs (alloc_vector_from handler ptr i vs)
        ⊎ Full vs (alloc_vector_from handler ptr i vs)
  unfolding alloc_vector_from
  from_outcome i [] = inr (record { all_reserved = λ j v e. absurd cc; result = refl })
  from_outcome i (v ∷ vs) = elim (Bool-cases (v.reserved == 0)) [
    | inl e ↦ inl (record {
      index = 0;
      vector = v;
      there = refl;
      was_free = ground arith;
      first = λ j u h. absurd (omega arith);
      result = rw e (at_index (omega arith));
    })
    | inr e ↦ elim (from_outcome (i + 1) vs) [
      | inl t ↦ inl (record {
        index = suc t.index;
        vector = t.vector;
        there = t.there;
        was_free = t.was_free;
        first = later v vs t.index (ground arith) t.first;
        result = rw (e, t.result) (at_index (omega arith));
      })
      | inr t ↦ inr (record {
        all_reserved = still v vs (ground arith) t.all_reserved;
        result = rw (e, t.result) refl;
      })
    ]
  ]
    where
      later :
          (v : Vector H) (vs : List (Vector H)) (n : ℕ)
          → v.reserved ≢ 0
          → Reserved vs n
          → Reserved (v ∷ vs) (suc n)
      later v vs n h rest zero u lt e = let same : v ≡ u = cc in subst (λ t. t.reserved ≢ 0) same h
      later v vs n h rest (suc j) u lt e = rest j u (omega arith) e

      still :
          (v : Vector H) (vs : List (Vector H))
          → v.reserved ≢ 0
          → ((j : ℕ) (u : Vector H) → get_elem? vs j ≡ some u → u.reserved ≢ 0)
          → (j : ℕ) (u : Vector H) → get_elem? (v ∷ vs) j ≡ some u
          → u.reserved ≢ 0
      still v vs h rest zero u e = let same : v ≡ u = cc in subst (λ t. t.reserved ≢ 0) same h
      still v vs h rest (suc j) u e = rest j u e

  -- Either the first vector that is not reserved is taken, with the handler and its argument, and its
  -- index is returned, with no other vector changed, or all are reserved and the result is -1.
  pub idt_alloc_vector_outcome :
      (vs : List (Vector H))
      → Takes 0 vs (idt_alloc_vector handler ptr vs) ⊎ Full vs (idt_alloc_vector handler ptr vs)
  unfolding idt_alloc_vector
  idt_alloc_vector_outcome vs = from_outcome 0 vs

-- ===== src/Interrupts/Start.antt =====
-- The vectors after idt_init.
use rock.Base.{
  ℕ, zero, suc, ◌+◌, ◌<◌, ◌≤◌, ◌≡◌, ◌≢◌, refl, sym, ap, ◌∙◌, ◌⊎◌, inl, inr, Option, none, some,
  List, length, get_elem?, set, get_elem?-set_self, get_elem?-set_ne, get_elem?-lt,
  get_elem?-inside, ltb, ◌==◌, Bool-cases, arith,
}
use rock.Interrupts.{Vector, idt_alloc_vector}
use rock.Interrupts.Vectors.{idt_alloc_vector_outcome}
use rock.Interrupts.Init.{at_vector, reserve, init_vectors}

module _ {H : Type 0} where
  at_vector_self :
      (vs : List (Vector H)) (i : ℕ) (f : Vector H → Vector H) (v : Vector H)
      → get_elem? vs i ≡ some v
      → get_elem? (at_vector vs i f) i ≡ some (f v)
  at_vector_self vs i f v e =
      rw (at_vector, e) (get_elem?-set_self vs i (f v) (get_elem?-lt vs i e))

  at_vector_ne :
      (vs : List (Vector H)) (i j : ℕ) (f : Vector H → Vector H)
      → i ≢ j
      → get_elem? (at_vector vs i f) j ≡ get_elem? vs j
  at_vector_ne vs i j f ne = cases (get_elem? vs i)
    where
      cases :
          (o : Option (Vector H))
          → get_elem? (elim o as (λ t. List (Vector H)) [ none ↦ vs | some v ↦ set vs i (f v) ]) j
            ≡ get_elem? vs j
      cases none = refl
      cases (some v) = get_elem?-set_ne vs i j (f v) ne

  reserve-outside :
      (left i : ℕ) (vs : List (Vector H)) (j : ℕ)
      → (j < i) ⊎ (i + left ≤ j)
      → get_elem? (reserve left i vs) j ≡ get_elem? vs j
  unfolding reserve
  reserve-outside zero i vs j out = refl
  reserve-outside (suc left) i vs j out =
      reserve-outside left (i + 1) (at_vector vs i (λ v. record v { reserved = 1 })) j (omega arith)
      ∙ at_vector_ne vs i j (λ v. record v { reserved = 1 }) (omega arith)

  reserve-inside :
      (left i : ℕ) (vs : List (Vector H)) (j : ℕ) (v : Vector H)
      → get_elem? vs j ≡ some v
      → i ≤ j
      → j < i + left
      → get_elem? (reserve left i vs) j ≡ some (record v { reserved = 1 })
  unfolding reserve
  reserve-inside zero i vs j v e lo hi = absurd (omega arith)
  reserve-inside (suc left) i vs j v e lo hi =
      let mark : Vector H → Vector H = λ u. record u { reserved = 1 } in
      elim (Bool-cases (i == j)) [
        | inl at ↦
            let same : i ≡ j = ground (arith, at) in
            reserve-outside left (i + 1) (at_vector vs i mark) j (inl (omega arith))
            ∙ ap (get_elem? (at_vector vs i mark)) (sym same)
            ∙ at_vector_self vs i mark v (ap (get_elem? vs) same ∙ e)
        | inr past ↦
            let ne : i ≢ j = ground (arith, past) in
            reserve-inside left (i + 1) (at_vector vs i mark) j v (at_vector_ne vs i j mark ne ∙ e)
              (omega arith) (omega arith)
      ]

  -- the vectors below 48 are reserved
  init-reserved :
      (reschedule : H) (vs : List (Vector H)) (j : ℕ)
      → length vs ≡ 256
      → j < 48
      → (v : Vector H) × (get_elem? (init_vectors reschedule vs) j ≡ some v)
        × (v.reserved ≡ 1)
        × (j ≡ 32 → v.handler ≡ some reschedule)
  unfolding init_vectors
  init-reserved reschedule vs j len low =
      let (v, e) = get_elem?-inside vs j (omega arith) in
      let marked = reserve-inside 48 0 vs j v e (omega arith) (omega arith) in
      let timer : Vector H → Vector H = λ u. record u { handler = some reschedule; ptr = 0 } in
      elim (Bool-cases (32 == j)) [
        | inl at ↦
            let same : 32 ≡ j = ground (arith, at) in
            (
              timer (record v { reserved = 1 }),
              ap (get_elem? (init_vectors reschedule vs)) (sym same)
                  ∙ at_vector_self (reserve 48 0 vs) 32 timer (record v { reserved = 1 })
                      (ap (get_elem? (reserve 48 0 vs)) same ∙ marked),
              refl,
              λ e'. refl,
            )
        | inr other ↦
            let ne : 32 ≢ j = ground (arith, other) in
            (
              record v { reserved = 1 },
              at_vector_ne (reserve 48 0 vs) 32 j timer ne ∙ marked,
              refl,
              λ e'. absurd (ne (sym e')),
            )
      ]

  free-high :
      (reschedule : H) (vs : List (Vector H)) (i : ℕ) (v : Vector H)
      → length vs ≡ 256
      → get_elem? (init_vectors reschedule vs) i ≡ some v
      → v.reserved ≡ 0
      → 48 ≤ i
  free-high reschedule vs i v len there free = elim (Bool-cases (ltb i 48)) [
    | inl low ↦
        let (u, e, kept, runs) = init-reserved reschedule vs i len (ground (arith, low)) in
        let same : u ≡ v = cc in absurd (omega (arith, kept, free, ap (λ x. x.reserved) same))
    | inr high ↦ ground (arith, high)
  ]

  -- After idt_init on a table of 256 vectors, idt_alloc_vector takes no vector below 48, and vector
  -- 32 is still that of reschedule.
  pub alloc_vector-idt_init :
      (reschedule handler : H) (ptr : ℕ) (vs : List (Vector H))
      → length vs ≡ 256
      → (48 ≤ (idt_alloc_vector handler ptr (init_vectors reschedule vs)).0)
        × ((v : Vector H) × (get_elem?
                (idt_alloc_vector handler ptr (init_vectors reschedule vs)).1
                32
              ≡ some v)
            × (v.handler ≡ some reschedule))
  alloc_vector-idt_init reschedule handler ptr vs len =
      let (timer, there, kept, runs) = init-reserved reschedule vs 32 len (omega arith) in
      elim (idt_alloc_vector_outcome handler ptr (init_vectors reschedule vs)) [
        | inl t ↦
            let high : 48 ≤ t.index =
              free-high reschedule vs t.index t.vector len t.there t.was_free in
            rw t.result (
              (omega arith),
              (timer, get_elem?-set_ne _ t.index 32 _ (omega arith) ∙ there, runs refl),
            )
        | inr f ↦ rw f.result (omega arith, (timer, there, runs refl))
      ]

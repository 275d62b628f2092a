-- ===== src/Physical/Modules.antt =====
-- `pmm_alloc` and `pmm_free` over the list of modules.
use rock.Base.{
  ℕ, ◌+◌, ◌*◌, ◌/◌, ◌≤◌, ◌<◌, ◌≡◌, ◌≢◌, refl, false, ◌⊎◌, inl, inr, List, [], ◌∷◌, ◌==◌, add64,
  mul64, minus_one, page_size, Run, ok, arith,
}
use rock.Fayt.{BitOps, Rounding, MemOps}
use rock.Physical.{Module, Pmm, alloc_from, pmm_alloc}
use rock.Physical.Search.{IsRequest}
use rock.Physical.Alloc.{IsValid, Granted, Exhausted, module_alloc_outcome}

module _ (ops : BitOps) where
  abbrev pub All : (Module ops → Type 0) → List (Module ops) → Type 0
  All P [] = Unit
  All P (m ∷ ms) = P m × All P ms

  -- The first module that can grant the request does, and the others stay as they are.
  pub data Grants (cnt align a : ℕ) : List (Module ops) → List (Module ops) → Type 0 where
    here :
        {m m' : Module ops} {ms : List (Module ops)}
        → Granted ops m cnt align a m'
        → Grants cnt align a (m ∷ ms) (m' ∷ ms)
    later :
        {m : Module ops} {ms ms' : List (Module ops)}
        → Exhausted ops m cnt align
        → Grants cnt align a ms ms'
        → Grants cnt align a (m ∷ ms) (m ∷ ms')

  -- An address that is granted is not the -1 of a refusal.
  pub Granted-ne-minus_one :
      {m m' : Module ops} {cnt align a : ℕ}
      → IsValid ops m
      → IsRequest cnt align
      → Granted ops m cnt align a m'
      → a ≢ minus_one
  Granted-ne-minus_one v q g e = omega (arith, g.address, g.inside)

  pub Grants-ne-minus_one :
      {cnt align a : ℕ} {ms ms' : List (Module ops)}
      → All (IsValid ops) ms
      → IsRequest cnt align
      → Grants cnt align a ms ms'
      → a ≢ minus_one
  Grants-ne-minus_one v q (here g) = Granted-ne-minus_one v.0 q g
  Grants-ne-minus_one v q (later x g) = Grants-ne-minus_one v.1 q g

  -- Every module stays valid.
  pub Grants-All-IsValid :
      {cnt align a : ℕ} {ms ms' : List (Module ops)}
      → Grants cnt align a ms ms'
      → All (IsValid ops) ms
      → All (IsValid ops) ms'
  Grants-All-IsValid (here g) v = (g.valid, v.1)
  Grants-All-IsValid (later x g) v = (v.0, Grants-All-IsValid g v.1)

  test_false : {a : ℕ} → a ≢ minus_one → (a == minus_one) ≡ false
  test_false h = ground arith

  -- the two outcomes of a walk over the modules
  abbrev pub WalkOutcome : List (Module ops) → ℕ → ℕ → Run (ℕ × List (Module ops)) → Type 0
  WalkOutcome ms cnt align r =
      ((a : ℕ) × (ms' : List (Module ops)) × (r ≡ ok (a, ms')) × Grants cnt align a ms ms')
      ⊎ ((r ≡ ok (minus_one, ms)) × All (λ m. Exhausted ops m cnt align) ms)

  module _ (rnd : Rounding) (fuel cnt align : ℕ) (q : IsRequest cnt align) where
    alloc_from_outcome :
        (ms : List (Module ops))
        → All (IsValid ops) ms
        → All (λ m. m.bitmap_entry_cnt < fuel) ms
        → WalkOutcome ms cnt align (alloc_from ops rnd fuel cnt align ms)
    unfolding alloc_from
    alloc_from_outcome [] v f = inr (refl, tt)
    alloc_from_outcome (m ∷ ms) v f =
        elim (module_alloc_outcome ops rnd m cnt align v.0 q fuel f.0) [
          | inl (a, m', e, g) ↦
              inl (a, m' ∷ ms, ground (arith, e, Granted-ne-minus_one v.0 q g), here g)
          | inr (e, x) ↦ elim (alloc_from_outcome ms v.1 f.1) [
            | inl (a, ms', e', g) ↦ inl (a, m ∷ ms', rw (e, e') refl, later x g)
            | inr (e', x') ↦ inr (rw (e, e') refl, (x, x'))
          ]
        ]

    module _ (mops : MemOps) (high_vma : ℕ) where
      -- the `cnt` frames at `a`, as the kernel maps them, read as zero, and nothing else changed
      pub record Cleared (a : ℕ) (before after : mops.Mem) : Type 0 where
        pub zeroed : (k : ℕ) → k < cnt * 512 → mops.load64 after (add64 a high_vma + 8 * k) ≡ 0
        pub untouched :
            (p : ℕ)
            → (p + 8 ≤ add64 a high_vma) ⊎ (add64 a high_vma + cnt * page_size ≤ p)
            → mops.load64 after p ≡ mops.load64 before p

      -- the two outcomes of `pmm_alloc`
      abbrev pub PmmOutcome :
          Pmm ops rnd mops high_vma → Run (ℕ × Pmm ops rnd mops high_vma) → Type 0
      PmmOutcome p r =
          ((a : ℕ) × (p' : Pmm ops rnd mops high_vma) × (r ≡ ok (a, p'))
            × Grants cnt align a p.modules p'.modules
            × All (IsValid ops) p'.modules
            × Cleared a p.mem p'.mem)
          ⊎ ((r ≡ ok (minus_one, p)) × All (λ m. Exhausted ops m cnt align) p.modules)

      memset-Cleared :
          (a : ℕ) (mem : mops.Mem)
          → Cleared a mem (mops.memset64 mem (add64 a high_vma) 0 (mul64 cnt page_size / 8))
      memset-Cleared a mem = rw words (record {
        zeroed = mops.load-memset_inside mem (add64 a high_vma) 0 (cnt * 512);
        untouched =
            λ p h. mops.load-memset_outside mem (add64 a high_vma) 0 (cnt * 512) p (grind arith);
      })
        where
          words : mul64 cnt page_size / 8 ≡ cnt * 512
          words = omega arith

      pmm_alloc_at :
          (ms : List (Module ops)) (mem : mops.Mem)
          → ms ≢ []
          → All (IsValid ops) ms
          → All (λ m. m.bitmap_entry_cnt < fuel) ms
          → let p : Pmm ops rnd mops high_vma = record { modules = ms; mem = mem } in
            PmmOutcome p (pmm_alloc ops rnd mops high_vma fuel p cnt align)
      unfolding pmm_alloc
      pmm_alloc_at [] mem ne v f = absurd (ne refl)
      pmm_alloc_at (m ∷ ms) mem ne v f = elim (alloc_from_outcome (m ∷ ms) v f) [
        | inl (a, ms', e, g) ↦ inl (
          a,
          record {
            modules = ms';
            mem = mops.memset64 mem (add64 a high_vma) 0 (mul64 cnt page_size / 8);
          },
          ground (arith, e, Grants-ne-minus_one v q g),
          g,
          Grants-All-IsValid g v,
          memset-Cleared a mem,
        )
        | inr (e, x) ↦ inr (rw e refl, x)
      ]

      -- On a list of valid modules that is not empty, `pmm_alloc` returns. It grants the request from the
      -- first module that can, with the frames zeroed and nothing else in memory changed, or it
      -- returns -1, with the state as it was, and no module has an aligned run from its hint on.
      pub pmm_alloc_outcome :
          (p : Pmm ops rnd mops high_vma)
          → p.modules ≢ []
          → All (IsValid ops) p.modules
          → All (λ m. m.bitmap_entry_cnt < fuel) p.modules
          → PmmOutcome p (pmm_alloc ops rnd mops high_vma fuel p cnt align)
      pmm_alloc_outcome p ne v f = pmm_alloc_at p.modules p.mem ne v f

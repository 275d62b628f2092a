-- ===== src/Physical/Search.antt =====
-- The outer loop of `pmm_module_alloc` is a first-fit search over the aligned frames.
use rock.Base.{
  ℕ, zero, suc, ◌+◌, ◌-◌, ◌*◌, ◌^◌, ◌≤◌, ◌<◌, ◌≡◌, refl, sym, subst, true, ltb, Bool-cases, ◌⊎◌,
  inl, inr, add64, mul64, minus_one, page_size, Run, ok, arith,
}
use rock.Fayt.{BitOps}
use rock.Physical.{Module, Scan, taken, found, ended, scan, unlock, take_run, search_run}
use rock.Physical.Runs.{FreeRun, ScanSpec, scan-ScanSpec}

-- The direct map at HIGH_VMA, 2 ^ 64 - 2 ^ 47, reaches physical addresses up to here.
abbrev pub phys_limit : ℕ
phys_limit = 2 ^ 47

-- what is asked for: a run of frames that the address space could hold
pub record IsRequest (cnt align : ℕ) : Type 0 where
  pub some_frames : 0 < cnt
  pub few_frames : cnt ≤ 2 ^ 40
  pub aligned : 0 < align
  pub small_align : align ≤ 2 ^ 40

module _ (ops : BitOps) where
  -- the first of the candidates `i`, `i + align`, … with `cnt` clear bits was taken
  pub record FirstFit (m : Module ops) (cnt align i : ℕ) (r : Run (ℕ × Module ops)) : Type 0 where
    pub rounds : ℕ
    pub inside : i + rounds * align + cnt ≤ m.bitmap_entry_cnt
    pub free : FreeRun ops m.bitmap (i + rounds * align) cnt
    pub first : (q : ℕ) → q < rounds → ¬ FreeRun ops m.bitmap (i + q * align) cnt
    pub returns :
        r
        ≡ ok (
          m.mmap_entry.base + (i + rounds * align) * page_size,
          unlock ops (take_run ops m (i + rounds * align) (i + rounds * align + cnt - 1) cnt),
        )

  -- no candidate from `i` on has `cnt` clear bits
  pub record NoFit (m : Module ops) (cnt align i : ℕ) (r : Run (ℕ × Module ops)) : Type 0 where
    pub none_free :
        (q : ℕ)
        → i + q * align + cnt ≤ m.bitmap_entry_cnt
        → ¬ FreeRun ops m.bitmap (i + q * align) cnt
    pub returns : r ≡ ok (minus_one, unlock ops m)

  abbrev pub Searched : Module ops → ℕ → ℕ → ℕ → Run (ℕ × Module ops) → Type 0
  Searched m cnt align i r = FirstFit m cnt align i r ⊎ NoFit m cnt align i r

  module _ (m : Module ops) (cnt align : ℕ) where
    shift : (i j q : ℕ) → j ≡ i + align → j + q * align ≡ i + suc q * align
    shift i j q e = omega arith

    -- What holds of no candidate from `j` on holds of none from `i` on, if not of `i`.
    not_from :
        (P : ℕ → Type 0) (i j : ℕ)
        → j ≡ i + align
        → ¬ P i
        → (q : ℕ) → ((p : ℕ) → q ≡ suc p → ¬ P (j + p * align))
        → ¬ P (i + q * align)
    not_from P i j e bad zero later h = bad (subst P (omega arith) h)
    not_from P i j e bad (suc q) later h = later q refl (subst P (sym (shift i j q e)) h)

    -- A candidate that fails hands the search on to the next one.
    skip-Searched :
        (i j : ℕ) {r : Run (ℕ × Module ops)}
        → j ≡ i + align
        → ¬ FreeRun ops m.bitmap i cnt
        → Searched m cnt align j r
        → Searched m cnt align i r
    skip-Searched i j e bad (inl fit) = inl (record {
      rounds = suc fit.rounds;
      inside = rw (← shift i j fit.rounds e) fit.inside;
      free = rw (← shift i j fit.rounds e) fit.free;
      first = λ q h.
          not_from (λ s. FreeRun ops m.bitmap s cnt) i j e bad q
            (λ p e'. fit.first p (omega arith));
      returns = rw (← shift i j fit.rounds e) fit.returns;
    })
    skip-Searched i j e bad (inr no_fit) = inr (record {
      none_free = λ q h.
          not_from (λ s. FreeRun ops m.bitmap s cnt) i j e bad q
            (λ p e'. no_fit.none_free p (rw (shift i j p e, ← e') h));
      returns = no_fit.returns;
    })

    -- A set bit in the run refutes it.
    not-FreeRun :
        (i : ℕ)
        → ((k : ℕ) × (k < cnt) × (ops.bit_test m.bitmap (i + k) ≡ true))
        → ¬ FreeRun ops m.bitmap i cnt
    not-FreeRun i (k, p, t) free = cc (free k p)

    module _ (q : IsRequest cnt align)
        (small : m.mmap_entry.base + m.bitmap_entry_cnt * page_size ≤ phys_limit) where
      -- What one round comes to, by what its scan found, given the rest of the search.
      on_scan :
          (i ab : ℕ) (rest dry : Run (ℕ × Module ops)) (s : Scan)
          → ab ≡ m.mmap_entry.base + i * page_size
          → i + cnt ≤ m.bitmap_entry_cnt
          → ScanSpec ops m.bitmap cnt cnt i s
          → Searched m cnt align (i + align) rest
          → Searched m cnt align i (elim s [
            | taken ↦ rest
            | found j count ↦ ok (ab, unlock ops (take_run ops m i j count))
            | ended ↦ dry
          ])
      on_scan i ab rest dry taken e h bad later =
          skip-Searched i (i + align) refl (not-FreeRun i bad) later
      on_scan i ab rest dry (found j count) e h (ec, ej, free) later = inl (record {
        rounds = 0;
        inside = omega arith;
        free = subst (λ s. FreeRun ops m.bitmap s cnt) (omega arith) free;
        first = λ p lt. absurd (omega arith);
        returns = rw (e, ec, here, last) refl;
      })
        where
          here : i + 0 * align ≡ i
          here = omega arith

          last : j ≡ i + cnt - 1
          last = omega arith
      on_scan i ab rest dry ended e h none later = absurd (omega arith)

      rounds_left : (i : ℕ) → i < m.bitmap_entry_cnt → add64 i cnt - i ≡ cnt
      rounds_left i h = omega arith

      next_frame : (i : ℕ) → i < m.bitmap_entry_cnt → add64 i align ≡ i + align
      next_frame i h = omega arith

      next_base :
          (i ab : ℕ)
          → i < m.bitmap_entry_cnt
          → ab ≡ m.mmap_entry.base + i * page_size
          → add64 ab (mul64 align page_size) ≡ m.mmap_entry.base + (i + align) * page_size
      next_base i ab h e = omega arith

      -- With a round for each frame left, the loop ends, and with the right answer.
      pub search_run-Searched :
          (fuel i ab : ℕ)
          → m.bitmap_entry_cnt - i < fuel
          → i < 2 ^ 60
          → ab ≡ m.mmap_entry.base + i * page_size
          → Searched m cnt align i (search_run ops fuel m cnt align i ab)
      unfolding search_run
      search_run-Searched zero i ab f b e = absurd (omega arith)
      search_run-Searched (suc fuel) i ab f b e = elim (Bool-cases (ltb i m.bitmap_entry_cnt)) [
        | inr past ↦
            rw (past, search_run)
              (inr (record { none_free = λ p h. absurd (ground arith); returns = refl }))
        | inl more ↦
            rw (more, search_run)
              (elim (Bool-cases (ltb m.bitmap_entry_cnt (add64 i cnt))) [
                | inl short ↦
                    rw short
                      (inr (record { none_free = λ p h. absurd (ground arith); returns = refl }))
                | inr enough ↦
                    rw (enough, rounds_left i (ground arith))
                      (on_scan i ab _ _ (scan ops m.bitmap cnt cnt i 0) e (ground arith)
                        (scan-ScanSpec ops m.bitmap cnt cnt i 0 (omega arith))
                        (rw (next_frame i (ground arith)) (
                          search_run-Searched fuel (i + align) _ (ground arith) (ground arith)
                            (next_base i ab (ground arith) e))))
              ])
      ]

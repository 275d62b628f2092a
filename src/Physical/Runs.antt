-- ===== src/Physical/Runs.antt =====
-- The inner loops of physical.c on a bitmap: what each reads and writes.
use rock.Base.{
  ℕ, zero, suc, ◌+◌, ◌≤◌, ◌<◌, ◌≡◌, refl, ◌∙◌, ap, ◌⊎◌, inl, inr, Bool, true, false, ltb, leb, ◌&&◌,
  ◌==◌, if◌then◌else◌, Bool-cases, arith,
}
use rock.Fayt.{BitOps}
use rock.Physical.{Scan, taken, found, ended, scan, set_run, clear_run, next_free}

-- whether `j` is one of the `n` indices from `i` on
abbrev pub in_run : ℕ → ℕ → ℕ → Bool
in_run i n j = leb i j && ltb j (i + n)

module _ (ops : BitOps) where
  open ops use {Bits, bit_test, bit_set, bit_clear, test-set, test-clear}

  -- the `n` bits from `i` on are clear
  abbrev pub FreeRun : Bits → ℕ → ℕ → Type 0
  FreeRun b i n = (k : ℕ) → k < n → bit_test b (i + k) ≡ false

  -- what a scan of the `left` bits from `j` on has found out
  abbrev pub ScanSpec : Bits → ℕ → ℕ → ℕ → Scan → Type 0
  ScanSpec b cnt left j taken = (k : ℕ) × (k < left) × (bit_test b (j + k) ≡ true)
  ScanSpec b cnt left j (found j' c) = (c ≡ cnt) × (j' + 1 ≡ j + left) × FreeRun b j left
  ScanSpec b cnt left j ended = left ≡ 0

  FreeRun-suc :
      (b : Bits) (j n : ℕ) → bit_test b j ≡ false → FreeRun b (j + 1) n → FreeRun b j (suc n)
  FreeRun-suc b j n h rest zero p = ap (bit_test b) (omega arith) ∙ h
  FreeRun-suc b j n h rest (suc k) p = ap (bit_test b) (omega arith) ∙ rest k (omega arith)

  scan-ScanSpec_later :
      (b : Bits) (cnt left j : ℕ) (s : Scan)
      → bit_test b j ≡ false
      → 0 < left
      → ScanSpec b cnt left (j + 1) s
      → ScanSpec b cnt (suc left) j s
  scan-ScanSpec_later b cnt left j taken h pos (k, p, t) =
      (suc k, omega arith, ap (bit_test b) (omega arith) ∙ t)
  scan-ScanSpec_later b cnt left j (found j' c) h pos (e, f, r) =
      (e, omega arith, FreeRun-suc b j left h r)
  scan-ScanSpec_later b cnt left j ended h pos e = absurd (omega arith)

  pub scan-ScanSpec :
      (b : Bits) (cnt left j count : ℕ)
      → count + left ≡ cnt
      → ScanSpec b cnt left j (scan ops b cnt left j count)
  unfolding scan
  scan-ScanSpec b cnt zero j count e = refl
  scan-ScanSpec b cnt (suc left) j count e = elim (Bool-cases (bit_test b j)) [
    | inl t ↦ rw t (0, omega arith, ap (bit_test b) (omega arith) ∙ t)
    | inr f ↦ rw f (elim (Bool-cases (count + 1 == cnt)) [
      | inl last ↦
          rw last
            (ground arith, ground arith, FreeRun-suc b j left f (λ k p. absurd (ground arith)))
      | inr more ↦ rw more (
          scan-ScanSpec_later b cnt left j _ f (ground arith)
            (scan-ScanSpec b cnt left (j + 1) (count + 1) (omega arith)))
    ])
  ]

  -- Setting a run sets its bits and no other.
  pub test-set_run :
      (b : Bits) (n i j : ℕ)
      → bit_test (set_run ops b n i) j ≡ (if in_run i n j then true else bit_test b j)
  unfolding set_run
  test-set_run b zero i j = ground arith
  test-set_run b (suc n) i j =
      ground (arith, test-set_run (bit_set b i) n (i + 1) j, test-set b i j)

  -- Clearing a run clears its bits and no other.
  pub test-clear_run :
      (b : Bits) (n i j : ℕ)
      → bit_test (clear_run ops b n i) j ≡ (if in_run i n j then false else bit_test b j)
  unfolding clear_run
  test-clear_run b zero i j = ground arith
  test-clear_run b (suc n) i j =
      ground (arith, test-clear_run (bit_clear b i) n (i + 1) j, test-clear b i j)

  -- The new hint is clear, or 0 when nothing from `z` on is.
  pub next_free_lem :
      (b : Bits) (n z : ℕ)
      → ((bit_test b (next_free ops b n z) ≡ false)
          × (z ≤ next_free ops b n z)
          × (next_free ops b n z < z + n))
        ⊎ (next_free ops b n z ≡ 0)
  unfolding next_free
  next_free_lem b zero z = inr refl
  next_free_lem b (suc n) z = ground (arith, next_free_lem b n (z + 1))

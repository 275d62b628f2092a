-- ===== src/Physical/Alloc.antt =====
-- `pmm_module_alloc` and `pmm_module_free` on one module.
use rock.Base.{
  ℕ, suc, ◌+◌, ◌-◌, ◌*◌, ◌/◌, ◌%◌, ◌^◌, ◌≤◌, ◌<◌, ◌≡◌, refl, sym, subst, ◌∙◌, ap, ap₂, true, false,
  if◌then◌else◌, ◌⊎◌, inl, inr, add64, sub64, mul64, minus_one, page_size, Run, ok, arith,
}
use native.Mathlib.Nat.{div-add-mod', add-mul-mod_self_right, lt_of_mul-lt-mul_right}
use rock.Fayt.{BitOps, Rounding}
use rock.Physical.{Module, unlock, take_run, set_run, first_base, first_bit, module_alloc}
use rock.Physical.Runs.{FreeRun, in_run, test-set_run, next_free_lem}
use rock.Physical.Search.{phys_limit, IsRequest, Searched, search_run-Searched}

module _ (ops : BitOps) where
  -- a module between calls
  pub record IsValid (m : Module ops) : Type 0 where
    pub page_base : m.mmap_entry.base % page_size ≡ 0
    pub small : m.mmap_entry.base + m.bitmap_entry_cnt * page_size ≤ phys_limit
    pub hint_in : m.last_free ≤ m.bitmap_entry_cnt
    pub unlocked : m.locked ≡ false

  -- `a` is the address of `cnt` frames of `m` that were free, and `m'` is `m` with them taken
  pub record Granted (m : Module ops) (cnt align a : ℕ) (m' : Module ops) : Type 0 where
    pub frame : ℕ
    pub address : a ≡ m.mmap_entry.base + frame * page_size
    pub aligned : a % (align * page_size) ≡ 0
    pub inside : frame + cnt ≤ m.bitmap_entry_cnt
    pub above_hint : m.last_free ≤ frame
    pub was_free : FreeRun ops m.bitmap frame cnt
    pub now_taken :
        (j : ℕ)
        → ops.bit_test m'.bitmap j ≡ (if in_run frame cnt j then true else ops.bit_test m.bitmap j)
    pub same_entry : m'.mmap_entry ≡ m.mmap_entry
    pub same_count : m'.bitmap_entry_cnt ≡ m.bitmap_entry_cnt
    pub valid : IsValid m'

  -- no aligned run of free frames starts at the hint or above
  pub record Exhausted (m : Module ops) (cnt align : ℕ) : Type 0 where
    pub no_run :
        (s : ℕ)
        → m.last_free ≤ s
        → (m.mmap_entry.base + s * page_size) % (align * page_size) ≡ 0
        → s + cnt ≤ m.bitmap_entry_cnt
        → ¬ FreeRun ops m.bitmap s cnt

  -- the two outcomes of a call: a run of frames, or -1 and the module as it was
  abbrev pub ModuleOutcome : Module ops → ℕ → ℕ → Run (ℕ × Module ops) → Type 0
  ModuleOutcome m cnt align r =
      ((a : ℕ) × (m' : Module ops) × (r ≡ ok (a, m')) × Granted m cnt align a m')
      ⊎ ((r ≡ ok (minus_one, m)) × Exhausted m cnt align)

  -- a multiple, with its quotient
  multiple : (a d : ℕ) → a % d ≡ 0 → a ≡ a / d * d
  multiple a d e = omega (arith, div-add-mod' a d)

  quotient-le : (x y d : ℕ) → x * d < y * d + d → x ≤ y
  quotient-le x y d h = omega (arith, lt_of_mul-lt-mul_right d {m = x} {n = suc y} (omega arith))

  split_multiple : (x k y d : ℕ) → y ≡ x + k → y * d ≡ x * d + k * d
  split_multiple x k y d e = rw e (omega arith)

  module _ (rnd : Rounding) (m : Module ops) (cnt align : ℕ) (v : IsValid m)
      (q : IsRequest cnt align) where
    abbrev start : ℕ
    start = m.mmap_entry.base + m.last_free * page_size

    abbrev stride : ℕ
    stride = align * page_size

    start-eq : add64 m.mmap_entry.base (mul64 m.last_free page_size) ≡ start
    start-eq = omega arith

    stride-eq : mul64 align page_size ≡ stride
    stride-eq = omega arith

    -- What ALIGN_UP gives: the first multiple at or above the hint.
    first_base_lem :
        (start ≤ first_base ops rnd m align)
        × (first_base ops rnd m align < start + stride)
        × (first_base ops rnd m align % stride ≡ 0)
    first_base_lem =
        subst (λ a. (start ≤ a) × (a < start + stride) × (a % stride ≡ 0))
          (sym (ap₂ rnd.align_up start-eq stride-eq)) (bounds.0, bounds.1, multiple_of)
      where
        bounds : (start ≤ rnd.align_up start stride) × (rnd.align_up start stride < start + stride)
        bounds = rnd.align_up_bounds start stride (omega arith) (omega arith)

        multiple_of : rnd.align_up start stride % stride ≡ 0
        multiple_of = rnd.align_up-mod start stride (omega arith) (omega arith)

    -- A multiple of the stride is a multiple of the page size.
    page_multiple : (a : ℕ) → a % stride ≡ 0 → a ≡ a / stride * align * page_size
    page_multiple a e = omega (arith, multiple a stride e)

    -- The index from which the loop starts is that of the address.
    frame_index :
        (a k : ℕ)
        → m.mmap_entry.base ≤ a
        → a < 2 ^ 62
        → a ≡ k * page_size
        → a ≡ m.mmap_entry.base + sub64 a m.mmap_entry.base / page_size * page_size
    frame_index a k h b e = omega arith

    first_base-first_bit :
        first_base ops rnd m align ≡ m.mmap_entry.base + first_bit ops rnd m align * page_size
    first_base-first_bit =
        frame_index (first_base ops rnd m align) (first_base ops rnd m align / stride * align)
          (omega (arith, first_base_lem)) (omega (arith, first_base_lem))
          (page_multiple _ (first_base_lem.2))

    -- With a round for each frame, the call returns, by the first fit or by none.
    module_alloc-Searched :
        (fuel : ℕ)
        → m.bitmap_entry_cnt < fuel
        → Searched ops
            (record m { locked = true })
            cnt
            align
            (first_bit ops rnd m align)
            (module_alloc ops rnd fuel m cnt align)
    unfolding module_alloc
    module_alloc-Searched fuel h = rw v.unlocked (
        search_run-Searched ops (record m { locked = true }) cnt align q v.small fuel
          (first_bit ops rnd m align) (first_base ops rnd m align) (omega arith)
          (omega (arith, first_base_lem)) first_base-first_bit)

    at_candidate :
        (f s k a : ℕ)
        → s ≡ f + k * align
        → a ≡ m.mmap_entry.base + f * page_size
        → m.mmap_entry.base + s * page_size ≡ a + k * stride
    at_candidate f s k a es ea = omega arith

    of_candidate :
        (f s k a : ℕ)
        → a ≡ m.mmap_entry.base + f * page_size
        → m.mmap_entry.base + s * page_size ≡ a + k * stride
        → s ≡ f + k * align
    of_candidate f s k a ea e = omega arith

    Granted-of_fit :
        (s k j : ℕ)
        → s ≡ first_bit ops rnd m align + k * align
        → j ≡ s + cnt - 1
        → s + cnt ≤ m.bitmap_entry_cnt
        → FreeRun ops m.bitmap s cnt
        → Granted m cnt align
            (m.mmap_entry.base + s * page_size)
            (unlock ops (take_run ops (record m { locked = true }) s j cnt))
    unfolding take_run
    Granted-of_fit s k j es ej inside free = record {
      frame = s;
      address = refl;
      aligned =
          rw (at_candidate (first_bit ops rnd m align) s k _ es first_base-first_bit)
            (add-mul-mod_self_right (first_base ops rnd m align) k stride ∙ first_base_lem.2);
      inside = inside;
      above_hint = omega (arith, es, first_base_lem, first_base-first_bit);
      was_free = free;
      now_taken = test-set_run ops m.bitmap cnt s;
      same_entry = refl;
      same_count = refl;
      valid = record {
        page_base = v.page_base;
        small = v.small;
        hint_in =
            ground
              (arith, next_free_lem ops (set_run ops m.bitmap cnt s) (m.bitmap_entry_cnt - j) j);
        unlocked = refl;
      };
    }

    -- Each aligned run at or above the hint is one of the loop's candidates.
    candidate :
        (s : ℕ)
        → m.last_free ≤ s
        → s < 2 ^ 60
        → (m.mmap_entry.base + s * page_size) % stride ≡ 0
        → (k : ℕ) × (s ≡ first_bit ops rnd m align + k * align)
    candidate s h b e = (
      above - below,
      of_candidate (first_bit ops rnd m align) s (above - below) (first_base ops rnd m align)
          first_base-first_bit
          (whole
            ∙ split_multiple below (above - below) above stride (omega (arith, order))
            ∙ ap (λ t. t + (above - below) * stride) (sym base_whole)),
    )
      where
        above : ℕ
        above = (m.mmap_entry.base + s * page_size) / stride

        below : ℕ
        below = first_base ops rnd m align / stride

        whole : m.mmap_entry.base + s * page_size ≡ above * stride
        whole = multiple _ stride e

        base_whole : first_base ops rnd m align ≡ below * stride
        base_whole = multiple _ stride (first_base_lem.2)

        order : below ≤ above
        order = quotient-le below above stride (omega (arith, first_base_lem, whole, base_whole))

    -- The outcomes of `pmm_module_alloc`.
    pub module_alloc_outcome :
        (fuel : ℕ)
        → m.bitmap_entry_cnt < fuel
        → ModuleOutcome m cnt align (module_alloc ops rnd fuel m cnt align)
    module_alloc_outcome fuel h = of_search (module_alloc-Searched fuel h)
      where
        of_search :
            Searched ops
              (record m { locked = true })
              cnt
              align
              (first_bit ops rnd m align)
              (module_alloc ops rnd fuel m cnt align)
            → ModuleOutcome m cnt align (module_alloc ops rnd fuel m cnt align)
        of_search (inl fit) =
            inl (_, _, fit.returns, Granted-of_fit _ fit.rounds _ refl refl fit.inside fit.free)
        of_search (inr no_fit) = inr (
          no_fit.returns ∙ ap (λ b. ok (minus_one, record m { locked = b })) (sym v.unlocked),
          record {
            no_run = λ s lo al hi free.
                let (k, e) = candidate s lo (omega arith) al in
                no_fit.none_free k (omega arith) (subst (λ t. FreeRun ops m.bitmap t cnt) e free);
          },
        )

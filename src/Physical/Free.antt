-- ===== src/Physical/Free.antt =====
-- What `pmm_module_free` gives back, and what two calls of `pmm_module_alloc` share.
use rock.Base.{
  ℕ, ◌+◌, ◌-◌, ◌*◌, ◌^◌, ◌≤◌, ◌<◌, ◌≡◌, refl, false, ◌⊎◌, ap, inl, inr, max, add64, sub64,
  page_size, ok, arith,
}
use native.Mathlib.Decide.{dec_le}
use rock.Fayt.{BitOps, Rounding}
use rock.Physical.{Module, clear_run, module_free}
use rock.Physical.Runs.{test-clear_run}
use rock.Physical.Alloc.{IsValid, Granted}

module _ (ops : BitOps) (rnd : Rounding) where
  -- DIV_ROUNDUP of a whole number of pages
  pub div_roundup_pages : (f : ℕ) → f ≤ 2 ^ 51 → rnd.div_roundup (f * page_size) page_size ≡ f
  div_roundup_pages f h =
      omega (arith, rnd.div_roundup_bounds (f * page_size) page_size (omega arith) (omega arith))

  -- `pmm_module_free` of the `cnt` frames from `f` on clears their bits and no other.
  pub module_free_lem :
      (m : Module ops) (f cnt : ℕ)
      → m.locked ≡ false
      → f ≤ 2 ^ 51
      → cnt ≤ 2 ^ 51
      → module_free ops rnd m (f * page_size) cnt
        ≡ ok (record m { bitmap = clear_run ops m.bitmap cnt f })
  unfolding module_free
  module_free_lem m f cnt u hf hc = rw (u, div_roundup_pages f hf, rounds) refl
    where
      rounds : add64 f cnt - f ≡ cnt
      rounds = omega arith

  module _ (m m' : Module ops) (cnt align a : ℕ) (v : IsValid ops m)
      (g : Granted ops m cnt align a m') where
    same_base : m'.mmap_entry.base ≡ m.mmap_entry.base
    same_base = ap (λ e. e.base) g.same_entry

    -- The offset that `pmm_free` hands over is that of the frame.
    offset : sub64 a m'.mmap_entry.base ≡ g.frame * page_size
    offset = omega (arith, g.address, same_base, v.small, g.inside)

    -- Freeing what was allocated gives every bit its old value.
    pub free-alloc :
        (m'' : Module ops) × (module_free ops rnd m' (sub64 a m'.mmap_entry.base) cnt ≡ ok m'')
        × ((j : ℕ) → ops.bit_test m''.bitmap j ≡ ops.bit_test m.bitmap j)
        × IsValid ops m''
    free-alloc = (
      record m' { bitmap = clear_run ops m'.bitmap cnt g.frame },
      rw offset (
          module_free_lem m' g.frame cnt g.valid.unlocked (omega (arith, v.small, g.inside))
            (omega (arith, v.small, g.inside))),
      λ j. ground (
        arith,
        test-clear_run ops m'.bitmap cnt g.frame j,
        g.now_taken j,
        g.was_free (j - g.frame),
      ),
      record {
        page_base = g.valid.page_base;
        small = g.valid.small;
        hint_in = g.valid.hint_in;
        unlocked = g.valid.unlocked;
      },
    )

    -- A second run of frames, allocated before the first is freed, shares no frame with it.
    pub alloc-alloc_disjoint :
        (m'' : Module ops) (cnt' align' b : ℕ)
        → 0 < cnt
        → 0 < cnt'
        → Granted ops m' cnt' align' b m''
        → (a + cnt * page_size ≤ b) ⊎ (b + cnt' * page_size ≤ a)
    alloc-alloc_disjoint m'' cnt' align' b pos pos' g' = elim (dec_le (g.frame + cnt) g'.frame) [
      | yes below ↦ inl (omega (arith, g.address, same_base))
      | no above ↦ elim (dec_le (g'.frame + cnt') g.frame) [
        | yes below' ↦ inr (omega (arith, g.address, same_base))
        | no above' ↦
            absurd (
              shared (max g.frame g'.frame) (omega arith) (omega arith) (omega arith) (omega arith))
      ]
    ]
      where
        shared : (s : ℕ) → g.frame ≤ s → s < g.frame + cnt → g'.frame ≤ s → s < g'.frame + cnt' → ⊥
        shared s p p' r r' = ground (arith, g.now_taken s, g'.was_free (s - g'.frame))

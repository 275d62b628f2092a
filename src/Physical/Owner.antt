-- ===== src/Physical/Owner.antt =====
-- Which module `pmm_free` gives the frames back to.
use rock.Base.{
  ℕ, ◌-◌, ◌*◌, ◌/◌, ◌%◌, ◌^◌, ◌≤◌, ◌<◌, ◌≡◌, refl, true, ◌&&◌, List, ◌∷◌, leb, add64, sub64, mul64,
  page_size, ok, ◌>>=◌, arith,
}
use rock.Fayt.{BitOps, Rounding, MemOps}
use rock.Physical.{Module, clear_run, free_in, pmm_free}
use rock.Physical.Alloc.{IsValid}
use rock.Physical.Free.{module_free_lem}

module _ (ops : BitOps) (rnd : Rounding) (mops : MemOps) (high_vma : ℕ) where
  -- The test of `pmm_free` does not ask where the frames end: frames at or above the root module's
  -- base, no more than it has, are cleared in the root module's bitmap, at an index past its end
  -- where they belong to another module, and the other modules stay as they were.
  pub pmm_free-root :
      (m : Module ops) (ms : List (Module ops)) (mem : mops.Mem) (base cnt : ℕ)
      → IsValid ops m
      → m.mmap_entry.base ≤ base
      → base % page_size ≡ 0
      → base < 2 ^ 52
      → cnt ≤ m.bitmap_entry_cnt
      → pmm_free ops rnd mops high_vma (record { modules = m ∷ ms; mem = mem }) base cnt
        ≡ ok (record {
          modules =
              record m {
                bitmap = clear_run ops m.bitmap cnt ((base - m.mmap_entry.base) / page_size);
              }
              ∷ ms;
          mem = mem;
        })
  unfolding pmm_free free_in
  pmm_free-root m ms mem base cnt v above page small few =
      rw
        (
          here,
          offset,
          module_free_lem ops rnd m index cnt v.unlocked (omega (arith, v.small))
              (omega (arith, v.small)),
          ◌>>=◌,
        )
        refl
    where
      index : ℕ
      index = (base - m.mmap_entry.base) / page_size

      here :
          (leb m.mmap_entry.base base
            && leb
                (add64 m.mmap_entry.base (mul64 cnt page_size))
                (add64 m.mmap_entry.base (mul64 m.bitmap_entry_cnt page_size)))
          ≡ true
      here = ground arith

      offset : sub64 base m.mmap_entry.base ≡ index * page_size
      offset = omega (arith, v.page_base)

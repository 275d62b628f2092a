-- ===== src/Virtual.antt =====
-- kernel/core/virtual.c: vmm_map_range and vmm_unmap_range.
-- The functions of the page table and pmm_alloc are an interface.
pub mod Range
mod Tests
use rock.Base.{ℕ, zero, suc, ◌+◌, bit_and, ◌==◌, if◌then◌else◌, Run, ok, ◌>>=◌, add64}
use rock.Paging.{flag_ps}

pub record RangeMemory : Type 1 where
  pub State : Type 0
  pub map_page : State → ℕ → ℕ → ℕ → Run State
  pub unmap_page : State → ℕ → Run (ℕ × State)
  pub pmm_alloc : State → ℕ → ℕ → Run (ℕ × State)

module _ (memory : RangeMemory) where
  open memory use {State, map_page, unmap_page, pmm_alloc}

  -- a loop of vmm_map_range, over pages of `size` bytes whose frames are aligned to `align`
  pub map_pages : ℕ → ℕ → State → ℕ → ℕ → ℕ → Run State
  map_pages size align s vaddr zero flags = ok s
  map_pages size align s vaddr (suc cnt) flags = do
    frame ← pmm_alloc s 1 align
    s' ← map_page frame.1 vaddr frame.0 flags
    map_pages size align s' (add64 vaddr size) cnt flags

  pub vmm_map_range : State → ℕ → ℕ → ℕ → Run State
  vmm_map_range s vaddr cnt flags =
      if bit_and flags flag_ps == 0
      then map_pages 0x1000 1 s vaddr cnt flags
      else map_pages 0x200000 0x200 s vaddr cnt flags

  pub vmm_unmap_range : State → ℕ → ℕ → Run State
  vmm_unmap_range s vaddr zero = ok s
  vmm_unmap_range s vaddr (suc cnt) = unmap_page s vaddr >>= λ r.
      if r.0 == 0 then ok r.1 else vmm_unmap_range r.1 (add64 vaddr r.0) cnt

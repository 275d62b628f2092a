-- ===== src/Virtual/Tests.antt =====
-- kernel/core/virtual.c.
use rock.Base.{ℕ, ◌+◌, ◌≡◌, bit_and, [], ◌∷◌, ◌==◌, if◌then◌else◌, ok, refl, Leaves, arith}
use rock.Paging.{flag_ps}
use rock.Virtual.{RangeMemory, map_pages, vmm_map_range}
use rock.Virtual.Range.{took, mapped, logged, Logged, vmm_map_range-Logged}

-- the next free frame
abbrev machine : RangeMemory
machine = record {
  State = ℕ;
  map_page = λ s v p flags. ok s;
  unmap_page = λ s v. ok (0x1000, s);
  pmm_alloc = λ s cnt align. ok (s, s + 0x1000);
}

two_pages :
    vmm_map_range (logged machine) (0x100000, []) 0x400000 2 7
    ≡ ok (
      0x102000,
      took 1 1 0x100000
          ∷ mapped 0x400000 0x100000 7
          ∷ took 1 1 0x101000
          ∷ mapped 0x401000 0x101000 7
          ∷ [],
    )
unfolding vmm_map_range map_pages
two_pages = refl

vmm_map_range-Logged_example :
    Leaves (vmm_map_range (logged machine) (0x100000, []) 0x400000 2 7) (λ r.
      Logged machine
        (if bit_and 7 flag_ps == 0 then 0x1000 else 0x200000)
        (if bit_and 7 flag_ps == 0 then 1 else 0x200)
        7
        0x400000
        0
        2
        []
        r.1)
vmm_map_range-Logged_example = vmm_map_range-Logged machine 0x100000 0x400000 2 7 (omega arith)

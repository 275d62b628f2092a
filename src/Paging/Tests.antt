-- ===== src/Paging/Tests.antt =====
-- The page tables on a machine whose frames are handed out one after another, from frame 1 on.
use rock.Base.{
  ℕ, zero, suc, ◌+◌, ◌*◌, ◌^◌, ◌≤◌, ◌<◌, ◌≡◌, ◌≢◌, refl, subst, ◌⊎◌, false, Option, none, some,
  List, [], ◌==◌, ltb, if◌then◌else◌, Run, ok, minus_one, add64, arith,
}
use rock.Fayt.Models.{words, fill, fill_inside, fill_outside}
use rock.Paging.{
  Space, pml4_map_page, pml4_unmap_page, pml4_page_entry, compute_table_indices, ensure_table,
}
use rock.Paging.Level5.{pml5_map_page, pml5_unmap_page}
use rock.Paging.Source.{FrameSource}
use rock.Paging.Entry.{IsFlags}
use rock.Paging.Walk.{IsTree, IsDirectMap, walk}
use rock.Paging.Map.{Supply, NoHuge}
use rock.Paging.Mapping.{Maps}
use rock.Paging.FourLevel.{path4, path5, pml4_map_page-Maps}
use rock.Paging.FiveLevel.{pml5_map_page-Maps}
use rock.Paging.Unmapping.{Unmaps, pml4_unmap_page-Unmaps, pml5_unmap_page-still_mapped}
use rock.Paging.Lookup.{Found, pml4_page_entry-Found}

abbrev high_vma : ℕ
high_vma = 0xffff800000000000

abbrev direct_map : IsDirectMap high_vma
direct_map = record { page = refl; room = omega arith }

abbrev next_page : ℕ → (ℕ → ℕ) → Run (ℕ × ℕ × (ℕ → ℕ))
next_page n m =
    if ltb n (2 ^ 35)
    then ok (n * 0x1000, n + 1, fill m (add64 (n * 0x1000) high_vma) 0 512)
    else ok (minus_one, n, m)

next_page_granted :
    (n a s : ℕ) (m m' : ℕ → ℕ)
    → next_page n m ≡ ok (a, s, m')
    → a ≢ minus_one
    → (a ≡ n * 0x1000)
      × (s ≡ n + 1)
      × (m' ≡ fill m (add64 (n * 0x1000) high_vma) 0 512)
      × (n < 2 ^ 35)
next_page_granted n a s m m' e got = ground arith

next_page_up : (n a s : ℕ) (m m' : ℕ → ℕ) → next_page n m ≡ ok (a, s, m') → n ≤ s
next_page_up n a s m m' e = ground arith

abbrev source : FrameSource words high_vma
source = record {
  S = ℕ;
  alloc_page = next_page;
  IsReady = λ n. Unit;
  IsFree = λ n f. n * 0x1000 ≤ f;
  alloc-IsReady = λ s s' m m' a r e. tt;
  alloc-IsFree = λ s s' m m' a r e got.
      let g = next_page_granted s a s' m m' e got in (omega (arith, g), omega (arith, g));
  alloc_shrinks = λ s s' m m' a f r e h. omega (arith, next_page_up s a s' m m' e);
  alloc_frame = λ s s' m m' a r e got.
      let g = next_page_granted s a s' m m' e got in (omega (arith, g), omega (arith, g));
  alloc_zeroed = λ s s' m m' a k r e got h.
      let g = next_page_granted s a s' m m' e got in
      rw (g.2, g.0) (fill_inside m (add64 (s * 0x1000) high_vma) 0 512 k h);
  alloc_untouched = λ s s' m m' a p r e got h.
      let g = next_page_granted s a s' m m' e got in
      rw g.2 (
        fill_outside m (add64 (s * 0x1000) high_vma) 0 512 p
          (subst (λ t. (p + 8 ≤ add64 t high_vma) ⊎ (add64 t high_vma + 0x1000 ≤ p)) g.0 h));
}

-- an empty top-level table in frame 0, with all of memory zero
abbrev empty_space : Space words high_vma source
empty_space = record { pmlt = high_vma; locked = false; frames = 1; mem = λ p. 0; flushed = [] }

abbrev root_only : ℕ → Option (List ℕ)
root_only f = if f == 0 then some [] else none

empty-IsTree :
    (depth : ℕ) → IsTree words high_vma source depth empty_space.mem empty_space.frames root_only
empty-IsTree depth = record {
  frames = λ f p o.
      let zero_frame : f ≡ 0 = ground arith in record { page = omega arith; low = omega arith };
  taken = λ f p o free. let zero_frame : f ≡ 0 = ground arith in absurd (omega arith);
  links = λ f p i o len hi there small. absurd (there refl);
  ready = tt;
}

Supply-from : (k n : ℕ) → n + k ≤ 2 ^ 35 → Supply words high_vma source k n
Supply-from zero n h = tt
Supply-from (suc k) n h = λ m. (
  n * 0x1000,
  n + 1,
  fill m (add64 (n * 0x1000) high_vma) 0 512,
  ground arith,
  omega arith,
  Supply-from k (n + 1) (omega arith),
)

-- present, writable, for user space
user_page : IsFlags 7
user_page = record { word = omega arith; present = refl; low = omega arith }

no_large4 : (vaddr : ℕ) → NoHuge words high_vma source empty_space.mem 0 (path4 vaddr)
no_large4 vaddr there = absurd (there refl)

no_large5 : (vaddr : ℕ) → NoHuge words high_vma source empty_space.mem 0 (path5 vaddr)
no_large5 vaddr there = absurd (there refl)

pml4_map_page-Maps_example :
    Maps words high_vma source direct_map 3
      (pml4_map_page words high_vma source empty_space 0x40403000 0x5000 7)
      empty_space
      root_only
      0
      []
      (path4 0x40403000)
      0x5007
pml4_map_page-Maps_example =
    pml4_map_page-Maps words high_vma source direct_map 0x40403000 0x5000 7 0 refl empty_space
      root_only user_page (empty-IsTree 3) refl refl refl (Supply-from 3 1 (omega arith))
      (no_large4 0x40403000)

different_indices :
    (compute_table_indices (2 ^ 48)).pml5_index ≢ (compute_table_indices (2 ^ 48)).pml4_index
unfolding compute_table_indices
different_indices e = absurd (omega (arith, e))

-- the page tables after those two mappings
maps4 :
    Maps words high_vma source direct_map 3
      (pml4_map_page words high_vma source empty_space 0x40403000 0x5000 7)
      empty_space
      root_only
      0
      []
      (path4 0x40403000)
      0x5007
maps4 =
    pml4_map_page-Maps words high_vma source direct_map 0x40403000 0x5000 7 0 refl empty_space
      root_only user_page (empty-IsTree 3) refl refl refl (Supply-from 3 1 (omega arith))
      (no_large4 0x40403000)

maps5 :
    Maps words high_vma source direct_map 4
      (pml5_map_page words high_vma source empty_space (2 ^ 48) 0x5000 7)
      empty_space
      root_only
      0
      []
      (path5 (2 ^ 48))
      0x5007
maps5 =
    pml5_map_page-Maps words high_vma source direct_map (2 ^ 48) 0x5000 7 0 refl empty_space
      root_only user_page (empty-IsTree 4) refl refl refl (Supply-from 4 1 (omega arith))
      (no_large5 (2 ^ 48))

abbrev mapped4 : Space words high_vma source
mapped4 = maps4.1

abbrev mapped5 : Space words high_vma source
mapped5 = maps5.1

pml4_unmap_page-Unmaps_example :
    Unmaps words high_vma source direct_map 3
      (pml4_unmap_page words high_vma source mapped4 0x40403000)
      mapped4
      maps4.2
      0
      (path4 0x40403000)
      0x40403000
pml4_unmap_page-Unmaps_example =
    pml4_unmap_page-Unmaps words high_vma source direct_map 0x40403000 0 mapped4 maps4.2
      maps4.4.tree (maps4.4.extends 0 [] refl) maps4.4.unlocked maps4.4.same_root

pml4_page_entry-Found_example :
    Found words high_vma source
      (pml4_page_entry words high_vma source mapped4 0x40403000)
      mapped4
      0
      (path4 0x40403000)
pml4_page_entry-Found_example =
    pml4_page_entry-Found words high_vma source 0x40403000 0 mapped4 maps4.4.unlocked
      maps4.4.same_root

pml5_unmap_page-still_mapped_example :
    (n : ℕ) × (sp' : Space words high_vma source) × (pml5_unmap_page words high_vma source mapped5
        (2 ^ 48)
      ≡ ok (n, sp'))
    × (walk words high_vma sp'.mem 0 (path5 (2 ^ 48))
        ≡ walk words high_vma mapped5.mem 0 (path5 (2 ^ 48)))
pml5_unmap_page-still_mapped_example =
    pml5_unmap_page-still_mapped words high_vma source direct_map (2 ^ 48) 0 mapped5 maps5.2
      maps5.4.tree (maps5.4.extends 0 [] refl) maps5.4.unlocked maps5.4.same_root different_indices

-- what the walk finds after a run
walk_after : Run (ℕ × Space words high_vma source) → List ℕ → Option ℕ
walk_after (ok (ptr, sp)) is = walk words high_vma sp.mem 0 is
walk_after r is = none

walk_after_map :
    walk_after
      (pml4_map_page words high_vma source empty_space 0x40403000 0x5000 7)
      (path4 0x40403000)
    ≡ some 0x5007
unfolding walk_after pml4_map_page ensure_table compute_table_indices walk
walk_after_map = refl

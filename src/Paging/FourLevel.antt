-- ===== src/Paging/FourLevel.antt =====
-- pml4_map_page of kernel/arch/x86/paging.c against the walk of the processor.
use rock.Base.{
  ℕ, ◌<◌, ◌≡◌, ◌≢◌, refl, sym, subst, ◌∙◌, bit_and, bit_or, true, false, Option, some, List, [],
  ◌∷◌, add64, arith, bit-bit_or,
}
use rock.Base.Bits.Shift.{bit_and-bound, bit_and-flag}
use rock.Fayt.{MemOps}
use rock.Paging.{flag_p, flag_ps, link4, Space, compute_table_indices, pml4_map_page}
use rock.Paging.Source.{FrameSource}
use rock.Paging.Entry.{IsFlags}
use rock.Paging.Walk.{Below, IsTree, IsDirectMap}
use rock.Paging.Grow.{link4-IsLink}
use rock.Paging.Map.{Supply, NoHuge, map_levels}
use rock.Paging.Mapping.{Maps, map_levels-Mapped, Mapped-any_lock}

-- the indices that lead to a small page, from the top table down
abbrev pub path4 : ℕ → List ℕ
path4 vaddr =
    let ix = compute_table_indices vaddr in
    ix.pml4_index ∷ ix.pml3_index ∷ ix.pml2_index ∷ ix.pml1_index ∷ []

abbrev pub path5 : ℕ → List ℕ
path5 vaddr = let ix = compute_table_indices vaddr in ix.pml5_index ∷ path4 vaddr

index_bound : (n : ℕ) → bit_and n 0x1ff < 512
index_bound n = bit_and-bound 9 n

pub path4-Below : (vaddr : ℕ) → Below (path4 vaddr)
unfolding compute_table_indices
path4-Below vaddr = (index_bound _, (index_bound _, (index_bound _, (index_bound _, tt))))

pub path5-Below : (vaddr : ℕ) → Below (path5 vaddr)
unfolding compute_table_indices
path5-Below vaddr = (index_bound _, path4-Below vaddr)

-- The entry that is written is present.
pub present-page : (paddr flags : ℕ) → IsFlags flags → bit_and (bit_or paddr flags) flag_p ≢ 0
present-page paddr flags fl =
    omega (arith, bit_and-flag 0 (bit_or paddr flags), bit-bit_or 0 paddr flags, fl.present)

module _ (mops : MemOps) (high_vma : ℕ) (src : FrameSource mops high_vma)
    (dm : IsDirectMap high_vma) where
  abbrev Sp : Type 0
  Sp = Space mops high_vma src

  module _ (vaddr paddr flags root : ℕ) (small : bit_and flags flag_ps ≡ 0) where
    -- the equation of the code with the walk over the levels, for one space
    abbrev ByLevels : Sp → Type 0
    ByLevels sp =
        pml4_map_page mops high_vma src sp vaddr paddr flags
        ≡ map_levels mops high_vma src (link4 flags) (record sp { locked = true }) root
            (path4 vaddr) (bit_or paddr flags)

    ByLevels-open_lock :
        (sp : Sp) → ByLevels (record sp { locked = false; pmlt = add64 root high_vma })
    unfolding pml4_map_page map_levels
    ByLevels-open_lock sp = rw (pml4_map_page, small) refl

    ByLevels-at_root : (sp : Sp) → sp.locked ≡ false → sp.pmlt ≡ add64 root high_vma → ByLevels sp
    ByLevels-at_root sp free top =
        subst (λ t. ByLevels (record sp { pmlt = t })) (sym top)
          (subst (λ t. ByLevels (record sp { locked = t; pmlt = add64 root high_vma })) (sym free)
            (ByLevels-open_lock sp))

    -- Mapping a small page on an open lock, in a page table that is a tree without a large page on the
    -- way, with three frames to be had: the code returns the address of the entry that holds the
    -- frame and the flags, the walk for `vaddr` finds that entry, every other walk from any table
    -- finds what it found, the tables are a tree again, and the lock is open.
    pub pml4_map_page-Maps :
        (sp : Sp) (owner : ℕ → Option (List ℕ))
        → IsFlags flags
        → IsTree mops high_vma src 3 sp.mem sp.frames owner
        → owner root ≡ some []
        → sp.locked ≡ false
        → sp.pmlt ≡ add64 root high_vma
        → Supply mops high_vma src 3 sp.frames
        → NoHuge mops high_vma src sp.mem root (path4 vaddr)
        → Maps mops high_vma src dm 3
            (pml4_map_page mops high_vma src sp vaddr paddr flags)
            sp
            owner
            root
            []
            (path4 vaddr)
            (bit_or paddr flags)
    pml4_map_page-Maps sp owner fl tree top free at supply no_huge =
        let (ptr, sp', owner', ran, d, held) =
          map_levels-Mapped mops high_vma src dm 3 (bit_or paddr flags) (link4 flags)
            (link4-IsLink flags fl) (present-page paddr flags fl) _ _ (record sp { locked = true })
            owner root [] tree top refl (path4-Below vaddr) supply no_huge in
        (
          ptr,
          sp',
          owner',
          ByLevels-at_root sp free at ∙ ran,
          Mapped-any_lock mops high_vma src dm 3 sp sp' true owner owner' root [] (path4 vaddr)
              (bit_or paddr flags) d,
          held,
        )

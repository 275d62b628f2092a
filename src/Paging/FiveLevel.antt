-- ===== src/Paging/FiveLevel.antt =====
-- pml5_map_page of kernel/arch/x86/paging.c against the walk of the processor.
use rock.Base.{
  ℕ, ◌≡◌, refl, sym, subst, ◌∙◌, bit_and, bit_or, true, false, Option, some, List, [], add64,
}
use rock.Fayt.{MemOps}
use rock.Paging.{flag_ps, link5, Space}
use rock.Paging.Level5.{pml5_map_page}
use rock.Paging.FourLevel.{path5, path5-Below, present-page}
use rock.Paging.Source.{FrameSource}
use rock.Paging.Entry.{IsFlags}
use rock.Paging.Walk.{IsTree, IsDirectMap}
use rock.Paging.Grow.{link5-IsLink}
use rock.Paging.Map.{Supply, NoHuge, map_levels}
use rock.Paging.Mapping.{Maps, map_levels-Mapped, Mapped-any_lock}

module _ (mops : MemOps) (high_vma : ℕ) (src : FrameSource mops high_vma)
    (dm : IsDirectMap high_vma) where
  abbrev Sp : Type 0
  Sp = Space mops high_vma src

  module _ (vaddr paddr flags root : ℕ) (small : bit_and flags flag_ps ≡ 0) where
    -- the equation of the code with the walk over the levels, for one space
    abbrev ByLevels : Sp → Type 0
    ByLevels sp =
        pml5_map_page mops high_vma src sp vaddr paddr flags
        ≡ map_levels mops high_vma src (link5 flags) (record sp { locked = true }) root
            (path5 vaddr) (bit_or paddr flags)

    ByLevels-open_lock :
        (sp : Sp) → ByLevels (record sp { locked = false; pmlt = add64 root high_vma })
    unfolding pml5_map_page map_levels
    ByLevels-open_lock sp = rw (pml5_map_page, small) refl

    ByLevels-at_root : (sp : Sp) → sp.locked ≡ false → sp.pmlt ≡ add64 root high_vma → ByLevels sp
    ByLevels-at_root sp free top =
        subst (λ t. ByLevels (record sp { pmlt = t })) (sym top)
          (subst (λ t. ByLevels (record sp { locked = t; pmlt = add64 root high_vma })) (sym free)
            (ByLevels-open_lock sp))

    -- Mapping a small page on an open lock, in a page table that is a tree without a large page on the
    -- way, with four frames to be had: the code returns the address of the entry that holds the
    -- frame and the flags, the walk for `vaddr` finds that entry, every other walk from any table
    -- finds what it found, the tables are a tree again, and the lock is open.
    pub pml5_map_page-Maps :
        (sp : Sp) (owner : ℕ → Option (List ℕ))
        → IsFlags flags
        → IsTree mops high_vma src 4 sp.mem sp.frames owner
        → owner root ≡ some []
        → sp.locked ≡ false
        → sp.pmlt ≡ add64 root high_vma
        → Supply mops high_vma src 4 sp.frames
        → NoHuge mops high_vma src sp.mem root (path5 vaddr)
        → Maps mops high_vma src dm 4
            (pml5_map_page mops high_vma src sp vaddr paddr flags)
            sp
            owner
            root
            []
            (path5 vaddr)
            (bit_or paddr flags)
    pml5_map_page-Maps sp owner fl tree top free at supply no_huge =
        let (ptr, sp', owner', ran, d, held) =
          map_levels-Mapped mops high_vma src dm 4 (bit_or paddr flags) (link5 flags)
            (link5-IsLink flags fl) (present-page paddr flags fl) _ _ (record sp { locked = true })
            owner root [] tree top refl (path5-Below vaddr) supply no_huge in
        (
          ptr,
          sp',
          owner',
          ByLevels-at_root sp free at ∙ ran,
          Mapped-any_lock mops high_vma src dm 4 sp sp' true owner owner' root [] (path5 vaddr)
              (bit_or paddr flags) d,
          held,
        )

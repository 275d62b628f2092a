-- ===== src/Paging/Unmapping.antt =====
-- pml4_unmap_page and pml5_unmap_page of kernel/arch/x86/paging.c against the walk of the processor.
use rock.Base.{
  ℕ, ◌≡◌, ◌≢◌, refl, sym, ap, subst, ◌∙◌, true, false, Option, some, List, [], ◌∷◌, Run, ok, add64,
}
use rock.Fayt.{MemOps}
use rock.Paging.{Space, compute_table_indices, pml4_unmap_page}
use rock.Paging.Level5.{pml5_unmap_page}
use rock.Paging.Source.{FrameSource}
use rock.Paging.Walk.{walk, IsTree, IsDirectMap}
use rock.Paging.FourLevel.{path4, path4-Below, path5, path5-Below}
use rock.Paging.Unmap.{unmap_levels, Unmapped}
use rock.Paging.Removal.{unmap_levels-Unmapped}

-- the indices that pml5_unmap_page goes by
abbrev pub unmap_path5 : ℕ → List ℕ
unmap_path5 vaddr = (compute_table_indices vaddr).pml4_index ∷ path4 vaddr

abbrev top_index : List ℕ → ℕ
top_index [] = 0
top_index (i ∷ []) = i
top_index (i ∷ j ∷ p) = top_index (j ∷ p)

module _ (mops : MemOps) (high_vma : ℕ) (src : FrameSource mops high_vma)
    (dm : IsDirectMap high_vma) where
  abbrev Sp : Type 0
  Sp = Space mops high_vma src

  -- what the code returns: the size of what was unmapped, and the space after it
  abbrev pub Unmaps : ℕ → Run (ℕ × Sp) → Sp → (ℕ → Option (List ℕ)) → ℕ → List ℕ → ℕ → Type 0
  Unmaps depth run sp owner root is vaddr =
      (n : ℕ) × (sp' : Sp) × (run ≡ ok (n, sp'))
      × Unmapped mops high_vma src depth sp owner root [] is vaddr n sp'

  Unmapped-any_lock :
      (depth : ℕ) (sp : Sp) (owner : ℕ → Option (List ℕ)) (root : ℕ) (is : List ℕ) (vaddr n : ℕ)
      (sp' : Sp)
      → Unmapped mops high_vma src depth (record sp { locked = true }) owner root [] is vaddr n sp'
      → Unmapped mops high_vma src depth sp owner root [] is vaddr n sp'
  Unmapped-any_lock depth sp owner root is vaddr n sp' d = record {
    tree = d.tree;
    above = d.above;
    gone = d.gone;
    others = d.others;
    result = d.result;
    same_root = d.same_root;
    same_frames = d.same_frames;
    unlocked = d.unlocked;
  }

  module _ (vaddr root : ℕ) where
    -- the equation of the code with the levels, for one space
    abbrev ByLevels : (Sp → ℕ → Run (ℕ × Sp)) → List ℕ → Sp → Type 0
    ByLevels code is sp =
        code sp vaddr ≡ unmap_levels mops high_vma src (record sp { locked = true }) vaddr root is

    at_root :
        (code : Sp → ℕ → Run (ℕ × Sp)) (is : List ℕ)
        → ((sp : Sp) → ByLevels code is (record sp { locked = false; pmlt = add64 root high_vma }))
        → (sp : Sp) → sp.locked ≡ false
        → sp.pmlt ≡ add64 root high_vma
        → ByLevels code is sp
    at_root code is h sp free top =
        subst (λ t. ByLevels code is (record sp { pmlt = t })) (sym top)
          (subst (λ t. ByLevels code is (record sp { locked = t; pmlt = add64 root high_vma }))
            (sym free) (h sp))

    by_levels4 :
        (sp : Sp)
        → ByLevels
            (pml4_unmap_page mops high_vma src)
            (path4 vaddr)
            (record sp { locked = false; pmlt = add64 root high_vma })
    unfolding pml4_unmap_page unmap_levels
    by_levels4 sp = refl

    by_levels5 :
        (sp : Sp)
        → ByLevels
            (pml5_unmap_page mops high_vma src)
            (unmap_path5 vaddr)
            (record sp { locked = false; pmlt = add64 root high_vma })
    unfolding pml5_unmap_page unmap_levels
    by_levels5 sp = refl

    -- Unmapping an address on an open lock, in a page table that is a tree: the code returns, the walk
    -- for the address finds nothing afterwards, every other walk finds what it found (those of the
    -- same large page aside, if it was one), and the tables are a tree again. It returns 0 with
    -- nothing flushed, and then nothing was mapped, or the size of a page, with the address flushed.
    pub pml4_unmap_page-Unmaps :
        (sp : Sp) (owner : ℕ → Option (List ℕ))
        → IsTree mops high_vma src 3 sp.mem sp.frames owner
        → owner root ≡ some []
        → sp.locked ≡ false
        → sp.pmlt ≡ add64 root high_vma
        → Unmaps 3 (pml4_unmap_page mops high_vma src sp vaddr) sp owner root (path4 vaddr) vaddr
    pml4_unmap_page-Unmaps sp owner tree top free at =
        let ((n, sp'), ran, d) =
          unmap_levels-Unmapped mops high_vma src dm 3 vaddr (record sp { locked = true }) owner
            tree _ _ root [] top refl (path4-Below vaddr) in
        (
          n,
          sp',
          at_root (pml4_unmap_page mops high_vma src) (path4 vaddr) by_levels4 sp free at ∙ ran,
          Unmapped-any_lock 3 sp owner root (path4 vaddr) vaddr n sp' d,
        )

    pml5_unmap_page-Unmaps :
        (sp : Sp) (owner : ℕ → Option (List ℕ))
        → IsTree mops high_vma src 4 sp.mem sp.frames owner
        → owner root ≡ some []
        → sp.locked ≡ false
        → sp.pmlt ≡ add64 root high_vma
        → Unmaps 4
            (pml5_unmap_page mops high_vma src sp vaddr)
            sp
            owner
            root
            (unmap_path5 vaddr)
            vaddr
    pml5_unmap_page-Unmaps sp owner tree top free at =
        let ((n, sp'), ran, d) =
          unmap_levels-Unmapped mops high_vma src dm 4 vaddr (record sp { locked = true }) owner
            tree _ _ root [] top refl ((path4-Below vaddr).0, path4-Below vaddr) in
        (
          n,
          sp',
          at_root (pml5_unmap_page mops high_vma src) (unmap_path5 vaddr) by_levels5 sp free at
              ∙ ran,
          Unmapped-any_lock 4 sp owner root (unmap_path5 vaddr) vaddr n sp' d,
        )

    -- In a five-level page table that is a tree, with the lock open, unmapping an address whose index
    -- in the top table differs from its index in the next one leaves the address mapped as it was.
    pub pml5_unmap_page-still_mapped :
        (sp : Sp) (owner : ℕ → Option (List ℕ))
        → IsTree mops high_vma src 4 sp.mem sp.frames owner
        → owner root ≡ some []
        → sp.locked ≡ false
        → sp.pmlt ≡ add64 root high_vma
        → (compute_table_indices vaddr).pml5_index ≢ (compute_table_indices vaddr).pml4_index
        → (n : ℕ) × (sp' : Sp) × (pml5_unmap_page mops high_vma src sp vaddr ≡ ok (n, sp'))
          × (walk mops high_vma sp'.mem root (path5 vaddr)
              ≡ walk mops high_vma sp.mem root (path5 vaddr))
    pml5_unmap_page-still_mapped sp owner tree top free at ne =
        let (n, sp', ran, d) = pml5_unmap_page-Unmaps sp owner tree top free at in
        (
          n,
          sp',
          ran,
          d.others (path5 vaddr) root [] top refl (path5-Below vaddr)
              (λ e. ne (sym (ap top_index e))) (λ l e. ne (sym (ap top_index e))),
        )

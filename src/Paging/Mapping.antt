-- ===== src/Paging/Mapping.antt =====
-- All levels of a mapping, by recursion on the indices.
use rock.Base.{
  ℕ, ◌+◌, ◌≡◌, ◌≢◌, refl, bit_and, Bool, Option, some, List, [], ◌∷◌, length, Run, ok, arith,
}
use rock.Fayt.{MemOps}
use rock.Paging.{flag_p, Space}
use rock.Paging.Source.{FrameSource}
use rock.Paging.Walk.{Below, IsTree, IsDirectMap}
use rock.Paging.Grow.{IsLink}
use rock.Paging.Map.{Supply, NoHuge, map_levels, Mapped, Mapped-Ensured}
use rock.Paging.Levels.{map_leaf-Mapped, written_self}
use rock.Paging.Ensure.{ensure_table-Ensured}

module _ (mops : MemOps) (high_vma : ℕ) (src : FrameSource mops high_vma)
    (dm : IsDirectMap high_vma) where
  abbrev Sp : Type 0
  Sp = Space mops high_vma src

  -- what the code returns: the address of the entry, and the space after the mapping
  abbrev pub Maps : ℕ → Run (ℕ × Sp) → Sp → (ℕ → Option (List ℕ)) → ℕ → List ℕ → List ℕ → ℕ → Type 0
  Maps depth run sp owner f p is w =
      (ptr : ℕ) × (sp' : Sp) × (owner' : ℕ → Option (List ℕ)) × (run ≡ ok (ptr, sp'))
      × Mapped mops high_vma src depth sp sp' owner owner' f p is w
      × (mops.load64 sp'.mem ptr ≡ w)

  -- Whether the lock was held makes no difference to what was mapped.
  pub Mapped-any_lock :
      (depth : ℕ) (sp sp' : Sp) (b : Bool) (owner owner' : ℕ → Option (List ℕ)) (f : ℕ)
      (p is : List ℕ) (w : ℕ)
      → Mapped mops high_vma src depth (record sp { locked = b }) sp' owner owner' f p is w
      → Mapped mops high_vma src depth sp sp' owner owner' f p is w
  Mapped-any_lock depth sp sp' b owner owner' f p is w d = record {
    tree = d.tree;
    extends = d.extends;
    above = d.above;
    here = d.here;
    others = d.others;
    same_root = d.same_root;
    unlocked = d.unlocked;
    same_flushed = d.same_flushed;
  }

  module _ (depth w : ℕ) (link : ℕ → ℕ) (is_link : IsLink link) (there : bit_and w flag_p ≢ 0) where
    -- With a frame for each level but the last, the levels are linked and the entry is written.
    pub map_levels-Mapped :
        (i : ℕ) (is : List ℕ) (sp : Sp) (owner : ℕ → Option (List ℕ)) (f : ℕ) (p : List ℕ)
        → IsTree mops high_vma src depth sp.mem sp.frames owner
        → owner f ≡ some p
        → length p + length is ≡ depth
        → Below (i ∷ is)
        → Supply mops high_vma src (length is) sp.frames
        → NoHuge mops high_vma src sp.mem f (i ∷ is)
        → Maps depth (map_levels mops high_vma src link sp f (i ∷ is) w) sp owner f p (i ∷ is) w
    unfolding map_levels
    map_levels-Mapped i [] sp owner f p tree owned deep below supply no_huge = (
      _,
      _,
      owner,
      refl,
      map_leaf-Mapped mops high_vma src dm depth sp owner f i w p tree owned (omega arith) below.0
          there,
      written_self mops high_vma src dm depth sp.mem sp.frames owner f i w p tree owned
          (omega arith) below.0,
    )
    map_levels-Mapped i (j ∷ r) sp owner f p tree owned deep below supply no_huge =
        let (sp1, owner1, made, e, more) =
          ensure_table-Ensured mops high_vma src dm depth sp owner f i j p r link is_link tree owned
            (omega arith) below.0 below.1.0 (length r) supply no_huge in
        let (ptr, sp', owner', ran, d, held) =
          map_levels-Mapped j r sp1 owner1 _ (i ∷ p) e.tree e.child (omega arith) below.1 more
            e.no_huge in
        (
          ptr,
          sp',
          owner',
          rw made ran,
          Mapped-Ensured mops high_vma src depth sp sp1 sp' owner owner1 owner' f p i j r w owned
              below.0 e d,
          held,
        )

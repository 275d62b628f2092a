-- ===== src/Paging/Levels.antt =====
-- Mapping a page succeeds, and changes one walk only.
use rock.Base.{
  ℕ, suc, ◌+◌, ◌<◌, ◌≡◌, ◌≢◌, refl, sym, ap, ◌⊎◌, inl, inr, bit_and, Option, some, List, [], ◌∷◌,
  length, arith,
}
use rock.Fayt.{MemOps}
use rock.Paging.{flag_p, Space, release, write_entry}
use rock.Paging.Source.{FrameSource}
use rock.Paging.Walk.{
  Below, full, cell, entry, walk, IsTree, IsDirectMap, entry-store_self, entry-store_ne,
}
use rock.Paging.Frame.{walk_same}
use rock.Paging.Map.{Mapped}

module _ (mops : MemOps) (high_vma : ℕ) (src : FrameSource mops high_vma)
    (dm : IsDirectMap high_vma) where
  abbrev Sp : Type 0
  Sp = Space mops high_vma src

  abbrev Owner : Type 0
  Owner = ℕ → Option (List ℕ)

  -- Writing an entry of the last level.
  module _ (depth : ℕ) (m : mops.Mem) (s : src.S) (owner : Owner) (f i w : ℕ) (p : List ℕ)
      (tree : IsTree mops high_vma src depth m s owner) (owned : owner f ≡ some p)
      (last : length p ≡ depth) (hi : i < 512) where
    abbrev written : mops.Mem
    written = mops.store64 m (cell mops high_vma f i) w

    pub written_same :
        (g j : ℕ) (q : List ℕ)
        → owner g ≡ some q
        → j < 512
        → (g ≢ f) ⊎ (j ≢ i)
        → entry mops high_vma written g j ≡ entry mops high_vma m g j
    written_same g j q o hj ne =
        entry-store_ne mops high_vma dm m f i w g j (tree.frames f p owned) hi (tree.frames g q o)
          hj (flip ne)
      where
        flip : (g ≢ f) ⊎ (j ≢ i) → (f ≢ g) ⊎ (i ≢ j)
        flip (inl h) = inl (λ e. h (sym e))
        flip (inr h) = inr (λ e. h (sym e))

    pub written_self : entry mops high_vma written f i ≡ w
    written_self = entry-store_self mops high_vma dm m f i w (tree.frames f p owned) hi

    -- An inner table is not the one that is written.
    inner_ne : (g : ℕ) (q : List ℕ) → owner g ≡ some q → length q < depth → g ≢ f
    inner_ne g q o len e = absurd (omega (arith, ap length (same_path e)))
      where
        same_path : g ≡ f → q ≡ p
        same_path e = cc

    pub written_above :
        (g j : ℕ) (q : List ℕ)
        → owner g ≡ some q
        → length q < depth
        → j < 512
        → entry mops high_vma written g j ≡ entry mops high_vma m g j
    written_above g j q o len hj = written_same g j q o hj (inl (inner_ne g q o len))

    pub written-IsTree : IsTree mops high_vma src depth written s owner
    written-IsTree = record {
      frames = tree.frames;
      taken = tree.taken;
      links = λ g q j o len hj.
          rw (written_above g j q o len hj) (λ there small. tree.links g q j o len hj there small);
      ready = tree.ready;
    }

    pub written_others :
        (js : List ℕ) (g : ℕ) (q : List ℕ)
        → owner g ≡ some q
        → length q + length js ≡ suc depth
        → Below js
        → full q js ≢ i ∷ p
        → walk mops high_vma written g js ≡ walk mops high_vma m g js
    written_others js g q o len below ne =
        walk_same mops high_vma src depth m written s owner f i p (full q js) tree owned
          written_same hit js g q o len below refl
      where
        hit :
            (r : List ℕ)
            → length p + length r ≡ depth
            → Below r
            → full p (i ∷ r) ≡ full q js
            → walk mops high_vma written f (i ∷ r) ≡ walk mops high_vma m f (i ∷ r)
        hit [] len' below' path = absurd (ne (sym path))
        hit (k ∷ r) len' below' path = absurd (omega arith)

  pub map_leaf-Mapped :
      (depth : ℕ) (sp : Sp) (owner : Owner) (f i w : ℕ) (p : List ℕ)
      → IsTree mops high_vma src depth sp.mem sp.frames owner
      → owner f ≡ some p
      → length p ≡ depth
      → i < 512
      → bit_and w flag_p ≢ 0
      → Mapped mops high_vma src depth sp
          (release mops high_vma src (write_entry mops high_vma src sp (cell mops high_vma f i) w))
          owner
          owner
          f
          p
          (i ∷ [])
          w
  map_leaf-Mapped depth sp owner f i w p tree o last hi there = record {
    tree = written-IsTree depth sp.mem sp.frames owner f i w p tree o last hi;
    extends = λ g q h. h;
    above = λ g j q h len hj.
        written_above depth sp.mem sp.frames owner f i w p tree o last hi g j q h (omega arith) hj;
    here = here;
    others = written_others depth sp.mem sp.frames owner f i w p tree o last hi;
    same_root = refl;
    unlocked = refl;
    same_flushed = refl;
  }
    where
      here :
          walk mops high_vma
            (written depth sp.mem sp.frames owner f i w p tree o last hi)
            f
            (i ∷ [])
          ≡ some w
      here =
          unfold walk in
          rw (written_self depth sp.mem sp.frames owner f i w p tree o last hi) (ground arith)

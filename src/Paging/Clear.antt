-- ===== src/Paging/Clear.antt =====
-- Clearing an entry of any level: the tree loses what the entry led to, and no other walk changes.
use native.Mathlib.Decide.{ℕ_discrete}
use rock.Base.{
  ℕ, suc, ◌+◌, ◌<◌, ◌≡◌, ◌≢◌, refl, sym, ◌⊎◌, inl, inr, bit_and, Option, none, some, List, ◌∷◌,
  length, arith, bit-bit_and,
}
use rock.Base.Bits.Shift.{bit_and-flag}
use rock.Fayt.{MemOps}
use rock.Paging.{flag_p, flag_ps, clear_p}
use rock.Paging.Source.{FrameSource}
use rock.Paging.Walk.{
  Below, full, cell, entry, walk, IsTree, IsDirectMap, entry-store_self, entry-store_ne,
}
use rock.Paging.Frame.{walk-absent, walk_same}

pub cleared-absent : (e : ℕ) → bit_and (bit_and e clear_p) flag_p ≡ 0
cleared-absent e = omega (arith, bit_and-flag 0 (bit_and e clear_p), bit-bit_and 0 e clear_p)

-- The test of unmap_page for a large page looks at the low 12 bits only, where its flag is.
pub low-huge : (e : ℕ) → bit_and (bit_and e 0xfff) flag_ps ≡ bit_and e flag_ps
low-huge e =
    omega (arith, bit_and-flag 7 (bit_and e 0xfff), bit_and-flag 7 e, bit-bit_and 7 e 0xfff)

module _ (mops : MemOps) (high_vma : ℕ) (src : FrameSource mops high_vma)
    (dm : IsDirectMap high_vma) (depth : ℕ) (m : mops.Mem) (s : src.S) (owner : ℕ → Option (List ℕ))
    (f i w : ℕ) (p : List ℕ) (tree : IsTree mops high_vma src depth m s owner)
    (owned : owner f ≡ some p) (hi : i < 512) (absent : bit_and w flag_p ≡ 0) where
  abbrev cleared : mops.Mem
  cleared = mops.store64 m (cell mops high_vma f i) w

  pub cleared_same :
      (g j : ℕ) (q : List ℕ)
      → owner g ≡ some q
      → j < 512
      → (g ≢ f) ⊎ (j ≢ i)
      → entry mops high_vma cleared g j ≡ entry mops high_vma m g j
  cleared_same g j q o hj ne =
      entry-store_ne mops high_vma dm m f i w g j (tree.frames f p owned) hi (tree.frames g q o) hj
        (flip ne)
    where
      flip : (g ≢ f) ⊎ (j ≢ i) → (f ≢ g) ⊎ (i ≢ j)
      flip (inl h) = inl (λ e. h (sym e))
      flip (inr h) = inr (λ e. h (sym e))

  cleared_self : entry mops high_vma cleared f i ≡ w
  cleared_self = entry-store_self mops high_vma dm m f i w (tree.frames f p owned) hi

  pub cleared_gone : (r : List ℕ) → walk mops high_vma cleared f (i ∷ r) ≡ none
  cleared_gone r = walk-absent mops high_vma cleared f i r (rw cleared_self absent)

  pub cleared-IsTree : IsTree mops high_vma src depth cleared s owner
  cleared-IsTree = record {
    frames = tree.frames;
    taken = tree.taken;
    ready = tree.ready;
    links = λ g q j o len hj. elim (ℕ_discrete g f) [
      | no ne ↦
          rw (cleared_same g j q o hj (inl ne))
            (λ there small. tree.links g q j o len hj there small)
      | yes e ↦ elim (ℕ_discrete j i) [
        | no ne ↦
            rw (cleared_same g j q o hj (inr ne))
              (λ there small. tree.links g q j o len hj there small)
        | yes e' ↦ rw (e, e', cleared_self) (λ there small. absurd (there absent))
      ]
    ];
  }

  -- A walk whose path does not lead through the entry finds what it found.
  pub cleared_others :
      (js : List ℕ) (g : ℕ) (q : List ℕ)
      → owner g ≡ some q
      → length q + length js ≡ suc depth
      → Below js
      → ((r : List ℕ) → length p + length r ≡ depth → full p (i ∷ r) ≢ full q js)
      → walk mops high_vma cleared g js ≡ walk mops high_vma m g js
  cleared_others js g q o len below ne =
      walk_same mops high_vma src depth m cleared s owner f i p (full q js) tree owned cleared_same
        (λ r len' below' path. absurd (ne r len' path)) js g q o len below refl

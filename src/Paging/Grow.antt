-- ===== src/Paging/Grow.antt =====
-- Linking a new table into the tree leaves every walk as it was.
use native.Mathlib.Decide.{ℕ_discrete, dec_lt}
use rock.Base.{
  ℕ, suc, ◌+◌, ◌≤◌, ◌<◌, ◌≡◌, ◌≢◌, refl, sym, ap, subst, ◌∙◌, ◌⊎◌, inl, inr, bit_and, Option, some,
  List, [], ◌∷◌, length, ◌==◌, if◌then◌else◌, ok, minus_one, add64, arith,
}
use mathlib.Core.Logic.{⊎_elim}
use rock.Fayt.{MemOps}
use rock.Paging.{flag_p, flag_ps, link4, link5}
use rock.Paging.Source.{FrameSource}
use rock.Paging.Entry.{
  frame_of, IsFrame, IsFlags, frame_of-link4, frame_of-link5, present-link4, present-link5,
  huge-link4, huge-link5,
}
use rock.Paging.Walk.{
  Below, full, cell, entry, walk, IsTree, IsDirectMap, cell-eq, entry-store_self, entry-store_ne,
}
use rock.Paging.Frame.{walk-absent, walk-present, walk_same}

-- what a link to a new table has to be
pub record IsLink (link : ℕ → ℕ) : Type 0 where
  pub to_frame : (a : ℕ) → IsFrame a → frame_of (link a) ≡ a
  pub present : (a : ℕ) → IsFrame a → bit_and (link a) flag_p ≡ 1
  pub small : (a : ℕ) → IsFrame a → bit_and (link a) flag_ps ≡ 0

pub link4-IsLink : (flags : ℕ) → IsFlags flags → IsLink (link4 flags)
link4-IsLink flags fl = record {
  to_frame = λ a fr. frame_of-link4 a flags fr fl;
  present = λ a fr. present-link4 a flags fr fl;
  small = λ a fr. huge-link4 a flags fr fl;
}

pub link5-IsLink : (flags : ℕ) → IsFlags flags → IsLink (link5 flags)
link5-IsLink flags fl = record {
  to_frame = λ a fr. frame_of-link5 a flags fr fl;
  present = λ a fr. present-link5 a flags fr fl;
  small = λ a fr. huge-link5 a flags fr fl;
}

-- the owners once frame `a` holds the table at path `p`
abbrev pub own : (ℕ → Option (List ℕ)) → ℕ → List ℕ → ℕ → Option (List ℕ)
own owner a p x = if x == a then some p else owner x

module _ (mops : MemOps) (high_vma : ℕ) (src : FrameSource mops high_vma)
    (dm : IsDirectMap high_vma) (depth : ℕ) (m m' : mops.Mem) (s s' : src.S)
    (owner : ℕ → Option (List ℕ)) (f i a : ℕ) (p : List ℕ) (link : ℕ → ℕ) (is_link : IsLink link)
    (tree : IsTree mops high_vma src depth m s owner) (owned : owner f ≡ some p)
    (inner : length p < depth) (hi : i < 512)
    (absent : bit_and (entry mops high_vma m f i) flag_p ≡ 0)
    (alloc : src.alloc_page s m ≡ ok (a, s', m')) (got : a ≢ minus_one) where
  abbrev grown : mops.Mem
  grown = mops.store64 m' (cell mops high_vma f i) (link a)

  pub a-IsFrame : IsFrame a
  a-IsFrame = omega (arith, src.alloc_frame s s' m m' a tree.ready alloc got)

  pub old_ne : (g : ℕ) (q : List ℕ) → owner g ≡ some q → g ≢ a
  old_ne g q o e =
      tree.taken g q o
        (subst (λ t. src.IsFree s t) (sym e) (src.alloc-IsFree s s' m m' a tree.ready alloc got).0)

  -- The tables there were are not touched by the allocator.
  kept :
      (g j : ℕ) (q : List ℕ)
      → owner g ≡ some q
      → j < 512
      → entry mops high_vma m' g j ≡ entry mops high_vma m g j
  kept g j q o hj =
      src.alloc_untouched s s' m m' a (cell mops high_vma g j) tree.ready alloc got
        (apart (old_ne g q o) (tree.frames g q o))
    where
      apart :
          g ≢ a
          → IsFrame g
          → (cell mops high_vma g j + 8 ≤ add64 a high_vma)
            ⊎ (add64 a high_vma + 0x1000 ≤ cell mops high_vma g j)
      apart ne fg = elim (dec_lt g a) [
        | yes lt ↦
            inl (omega (arith, cell-eq mops high_vma dm g j fg hj, a-IsFrame, dm.room, dm.page))
        | no ge ↦
            inr (omega (arith, cell-eq mops high_vma dm g j fg hj, a-IsFrame, dm.room, dm.page))
      ]

  pub grown_same :
      (g j : ℕ) (q : List ℕ)
      → owner g ≡ some q
      → j < 512
      → (g ≢ f) ⊎ (j ≢ i)
      → entry mops high_vma grown g j ≡ entry mops high_vma m g j
  grown_same g j q o hj ne =
      entry-store_ne mops high_vma dm m' f i (link a) g j (tree.frames f p owned) hi
        (tree.frames g q o) hj (flip ne)
      ∙ kept g j q o hj
    where
      flip : (g ≢ f) ⊎ (j ≢ i) → (f ≢ g) ⊎ (i ≢ j)
      flip (inl h) = inl (λ e. h (sym e))
      flip (inr h) = inr (λ e. h (sym e))

  pub grown_link : entry mops high_vma grown f i ≡ link a
  grown_link = entry-store_self mops high_vma dm m' f i (link a) (tree.frames f p owned) hi

  pub grown_zero : (j : ℕ) → j < 512 → entry mops high_vma grown a j ≡ 0
  grown_zero j hj =
      entry-store_ne mops high_vma dm m' f i (link a) a j (tree.frames f p owned) hi a-IsFrame hj
        (inl (old_ne f p owned))
      ∙ ap (mops.load64 m') (omega (arith, a-IsFrame, dm.room))
      ∙ src.alloc_zeroed s s' m m' a j tree.ready alloc got hj

  pub grown-extends : (g : ℕ) (q : List ℕ) → owner g ≡ some q → own owner a (i ∷ p) g ≡ some q
  grown-extends g q o = ground (arith, old_ne g q o)

  -- No walk sees the new table, which is empty.
  grown_hit :
      (r : List ℕ)
      → length p + length r ≡ depth
      → Below r
      → walk mops high_vma grown f (i ∷ r) ≡ walk mops high_vma m f (i ∷ r)
  grown_hit [] len below = absurd (omega arith)
  grown_hit (j ∷ r) len below =
      walk-present mops high_vma grown f i j r
        (rw grown_link (omega (arith, is_link.present a a-IsFrame)))
        (λ l. rw grown_link (is_link.small a a-IsFrame))
      ∙ rw (grown_link, is_link.to_frame a a-IsFrame)
          (walk-absent mops high_vma grown a j r (rw (grown_zero j below.0)))
      ∙ sym (walk-absent mops high_vma m f i (j ∷ r) absent)

  pub grown_walks :
      (js : List ℕ) (g : ℕ) (q : List ℕ)
      → owner g ≡ some q
      → length q + length js ≡ suc depth
      → Below js
      → walk mops high_vma grown g js ≡ walk mops high_vma m g js
  grown_walks js g q o len below =
      walk_same mops high_vma src depth m grown s owner f i p (full q js) tree owned grown_same
        (λ r len' below' path. grown_hit r len' below') js g q o len below refl

  own_cases :
      (g : ℕ) (q : List ℕ)
      → own owner a (i ∷ p) g ≡ some q
      → ((g ≡ a) × (q ≡ i ∷ p)) ⊎ (owner g ≡ some q)
  own_cases g q o = ground arith

  grown_links :
      (g : ℕ) (q : List ℕ) (j : ℕ)
      → owner g ≡ some q
      → length q < depth
      → j < 512
      → bit_and (entry mops high_vma grown g j) flag_p ≢ 0
      → (length q + 1 ≡ depth → bit_and (entry mops high_vma grown g j) flag_ps ≡ 0)
      → own owner a (i ∷ p) (frame_of (entry mops high_vma grown g j)) ≡ some (j ∷ q)
  grown_links g q j o len hj = elim (ℕ_discrete g f) [
    | no ne ↦ other (inl ne)
    | yes e ↦ elim (ℕ_discrete j i) [
      | no ne ↦ other (inr ne)
      | yes e' ↦ λ there small.
          let same_path : q ≡ p = cc in
          rw (e, e', grown_link, is_link.to_frame a a-IsFrame, same_path) (ground arith)
    ]
  ]
    where
      other :
          (g ≢ f) ⊎ (j ≢ i)
          → bit_and (entry mops high_vma grown g j) flag_p ≢ 0
          → (length q + 1 ≡ depth → bit_and (entry mops high_vma grown g j) flag_ps ≡ 0)
          → own owner a (i ∷ p) (frame_of (entry mops high_vma grown g j)) ≡ some (j ∷ q)
      other ne =
          rw (grown_same g j q o hj ne)
            (λ there small. grown-extends _ (j ∷ q) (tree.links g q j o len hj there small))

  pub grown-IsTree : IsTree mops high_vma src depth grown s' (own owner a (i ∷ p))
  grown-IsTree = record {
    frames = λ g q o.
        ⊎_elim (λ e. subst IsFrame (sym e.0) a-IsFrame) (λ e. tree.frames g q e) (own_cases g q o);
    taken = λ g q o free.
        ⊎_elim
          (λ e.
            (src.alloc-IsFree s s' m m' a tree.ready alloc got).1
              (subst (λ t. src.IsFree s' t) e.0 free))
          (λ e. tree.taken g q e (src.alloc_shrinks s s' m m' a g tree.ready alloc free))
          (own_cases g q o);
    links = λ g q j o len hj there small.
        ⊎_elim (λ e. absurd (there (rw (e.0, grown_zero j hj))))
          (λ e. grown_links g q j e len hj there small) (own_cases g q o);
    ready = src.alloc-IsReady s s' m m' a tree.ready alloc;
  }

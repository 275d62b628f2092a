-- ===== src/Paging/Frame.antt =====
-- What a change of one entry leaves of the walks.
use native.Mathlib.Decide.{ℕ_discrete}
use rock.Base.{
  ℕ, suc, ◌+◌, ◌<◌, ◌≡◌, ◌≢◌, refl, ap, ◌⊎◌, inl, inr, bit_and, Bool, true, false, Option, none,
  some, List, [], ◌∷◌, length, ◌==◌, if◌then◌else◌, arith,
}
use rock.Fayt.{MemOps}
use rock.Paging.{flag_p, flag_ps}
use rock.Paging.Source.{FrameSource}
use rock.Paging.Entry.{frame_of}
use rock.Paging.Walk.{Below, leaf, is_last, full, entry, walk, IsTree}

absent_false : (x : ℕ) → (x == 0) ≡ false → x ≢ 0
absent_false x h = ground arith

not_last : (e : ℕ) (r : List ℕ) → is_last e r ≡ false → length r ≡ 0 → bit_and e flag_ps ≡ 0
not_last e [] h l = ground arith
not_last e (k ∷ r) h l = absurd (omega arith)

-- Two walks that read the same entry and go on alike are alike.
pub branch_same {ℓ} :
    {A : Type ℓ} (b c : Bool) (x y u v : A)
    → (b ≡ false → c ≡ false → u ≡ v)
    → (if b then x else if c then y else u) ≡ (if b then x else if c then y else v)
branch_same true c x y u v h = refl
branch_same false true x y u v h = refl
branch_same false false x y u v h = h refl refl

module _ (mops : MemOps) (high_vma : ℕ) where
  pub walk-absent :
      (m : mops.Mem) (f i : ℕ) (r : List ℕ)
      → bit_and (entry mops high_vma m f i) flag_p ≡ 0
      → walk mops high_vma m f (i ∷ r) ≡ none
  unfolding walk
  walk-absent m f i [] h = rw h
  walk-absent m f i (j ∷ r) h = ground arith

  pub walk-present :
      (m : mops.Mem) (f i j : ℕ) (r : List ℕ)
      → bit_and (entry mops high_vma m f i) flag_p ≢ 0
      → (length r ≡ 0 → bit_and (entry mops high_vma m f i) flag_ps ≡ 0)
      → walk mops high_vma m f (i ∷ j ∷ r)
        ≡ walk mops high_vma m (frame_of (entry mops high_vma m f i)) (j ∷ r)
  unfolding walk
  walk-present m f i j [] h e = let small = e refl in ground arith
  walk-present m f i j (k ∷ r) h e = ground arith

module _ (mops : MemOps) (high_vma : ℕ) (src : FrameSource mops high_vma) where
  module _ (depth : ℕ) (m m2 : mops.Mem) (s : src.S) (owner : ℕ → Option (List ℕ)) (f i : ℕ)
      (p target : List ℕ) (tree : IsTree mops high_vma src depth m s owner)
      (owned : owner f ≡ some p)
      (same : (g j : ℕ) (q : List ℕ)
        → owner g ≡ some q
        → j < 512
        → (g ≢ f) ⊎ (j ≢ i)
        → entry mops high_vma m2 g j ≡ entry mops high_vma m g j)
      (hit : (r : List ℕ)
        → length p + length r ≡ depth
        → Below r
        → full p (i ∷ r) ≡ target
        → walk mops high_vma m2 f (i ∷ r) ≡ walk mops high_vma m f (i ∷ r)) where
    -- The walk passes through the entry that changed, or it reads the old value.
    at_entry :
        (g j : ℕ) (q r : List ℕ)
        → owner g ≡ some q
        → j < 512
        → length q + length r ≡ depth
        → Below r
        → full q (j ∷ r) ≡ target
        → (entry mops high_vma m2 g j ≡ entry mops high_vma m g j
            → walk mops high_vma m2 g (j ∷ r) ≡ walk mops high_vma m g (j ∷ r))
        → walk mops high_vma m2 g (j ∷ r) ≡ walk mops high_vma m g (j ∷ r)
    at_entry g j q r own hj len below path otherwise = elim (ℕ_discrete g f) [
      | no ne ↦ otherwise (same g j q own hj (inl ne))
      | yes e ↦ elim (ℕ_discrete j i) [
        | no ne ↦ otherwise (same g j q own hj (inr ne))
        | yes e' ↦
            let same_path : q ≡ p = cc in
            rw (e, e') (hit r (rw (← same_path) len) below (rw (← same_path, ← e') path))
      ]
    ]

    -- A walk that does not see the change gives what it gave.
    pub walk_same :
        (js : List ℕ) (g : ℕ) (q : List ℕ)
        → owner g ≡ some q
        → length q + length js ≡ suc depth
        → Below js
        → full q js ≡ target
        → walk mops high_vma m2 g js ≡ walk mops high_vma m g js
    unfolding walk
    walk_same [] g q own len below path = refl
    walk_same (j ∷ []) g q own len below path =
        at_entry g j q [] own below.0 (omega arith) tt path (λ e. ap leaf e)
    walk_same (j ∷ k ∷ r) g q own len below path =
        at_entry g j q (k ∷ r) own below.0 (omega arith) below.1 path λ e. rw e (
          branch_same (is_last (entry mops high_vma m g j) r)
            (bit_and (entry mops high_vma m g j) flag_p == 0) _ _ _ _
            λ last there.
              walk_same (k ∷ r) _ (j ∷ q)
                (tree.links g q j own (omega arith) below.0 (absent_false _ there)
                  (λ l. not_last _ r last (omega arith)))
                (omega arith) below.1 path)

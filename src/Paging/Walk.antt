-- ===== src/Paging/Walk.antt =====
-- A page table as a tree: the walk over indices, who owns which frame, and writes to one entry.
use rock.Base.{
  ℕ, ◌+◌, ◌*◌, ◌%◌, ◌^◌, ◌≤◌, ◌<◌, ◌≡◌, ◌≢◌, ◌⊎◌, inl, inr, bit_and, Bool, true, false, Option,
  none, some, List, [], ◌∷◌, length, ◌==◌, if◌then◌else◌, add64, arith,
}
use rock.Fayt.{MemOps}
use rock.Paging.{slot, flag_p, flag_ps}
use rock.Paging.Source.{FrameSource}
use rock.Paging.Entry.{frame_of, IsFrame}

-- Where the direct map may lie: at a page boundary, with room for 2 ^ 47 bytes.
pub record IsDirectMap (high_vma : ℕ) : Type 0 where
  pub page : high_vma % 2 ^ 12 ≡ 0
  pub room : high_vma + 2 ^ 47 ≤ 2 ^ 64

-- the indices of a walk are those of a table
abbrev pub Below : List ℕ → Type 0
Below [] = Unit
Below (i ∷ is) = (i < 512) × Below is

-- what an entry of the last level, or of a large page, says of an address
abbrev pub leaf : ℕ → Option ℕ
leaf e = if bit_and e flag_p == 0 then none else some e

-- `indices` are those below this entry: one left means the level whose entries may be large pages
abbrev pub is_last : ℕ → List ℕ → Bool
is_last e [] = if bit_and e flag_ps == 0 then false else true
is_last e (k ∷ ks) = false

-- the path of a frame with the indices still to go, the last index first
abbrev pub full : List ℕ → List ℕ → List ℕ
full p [] = p
full p (i ∷ is) = full (i ∷ p) is

module _ (mops : MemOps) (high_vma : ℕ) where
  -- the address of entry `i` of the table in frame `f`, and the entry
  abbrev pub cell : ℕ → ℕ → ℕ
  cell f i = slot (add64 f high_vma) i

  abbrev pub entry : mops.Mem → ℕ → ℕ → ℕ
  entry m f i = mops.load64 m (cell f i)

  -- What the processor finds for the indices, from the table in frame `f` down, where no entry above
  -- the last but one is a page of 1 GiB, which the kernel never makes.
  unfoldable pub walk : mops.Mem → ℕ → List ℕ → Option ℕ
  walk m f [] = none
  walk m f (i ∷ []) = leaf (entry m f i)
  walk m f (i ∷ j ∷ r) =
      let e = entry m f i in
      let rest = walk m (frame_of e) (j ∷ r) in
      if is_last e r then leaf e else if bit_and e flag_p == 0 then none else rest

  module _ (src : FrameSource mops high_vma) where
    -- `owner` says of each frame that holds a table which indices lead to it, the last one first.
    -- Below level `depth` a present entry that is no large page leads to the table it should.
    pub record IsTree (depth : ℕ) (m : mops.Mem) (s : src.S) (owner : ℕ → Option (List ℕ))
        : Type 0 where
      pub frames : (f : ℕ) (p : List ℕ) → owner f ≡ some p → IsFrame f
      pub taken : (f : ℕ) (p : List ℕ) → owner f ≡ some p → ¬ src.IsFree s f
      pub links :
          (f : ℕ) (p : List ℕ) (i : ℕ)
          → owner f ≡ some p
          → length p < depth
          → i < 512
          → bit_and (entry m f i) flag_p ≢ 0
          → (length p + 1 ≡ depth → bit_and (entry m f i) flag_ps ≡ 0)
          → owner (frame_of (entry m f i)) ≡ some (i ∷ p)
      pub ready : src.IsReady s

  module _ (dm : IsDirectMap high_vma) where
    pub cell-eq : (f i : ℕ) → IsFrame f → i < 512 → cell f i ≡ f + high_vma + 8 * i
    cell-eq f i fr h = omega (arith, dm.room, fr.low)

    pub cell-mod : (f i : ℕ) → IsFrame f → i < 512 → cell f i % 8 ≡ 0
    cell-mod f i fr h = omega (arith, cell-eq f i fr h, dm.page, fr.page)

    -- Different entries stand at different addresses.
    pub cell-ne :
        (f g i j : ℕ)
        → IsFrame f
        → IsFrame g
        → i < 512
        → j < 512
        → (f ≢ g) ⊎ (i ≢ j)
        → cell f i ≢ cell g j
    cell-ne f g i j ff fg hi hj (inl ne) e =
        ne (omega (arith, cell-eq f i ff hi, cell-eq g j fg hj, dm.page, ff.page, fg.page))
    cell-ne f g i j ff fg hi hj (inr ne) e =
        ne (omega (arith, cell-eq f i ff hi, cell-eq g j fg hj, dm.page, ff.page, fg.page))

    pub entry-store_self :
        (m : mops.Mem) (f i w : ℕ)
        → IsFrame f
        → i < 512
        → entry (mops.store64 m (cell f i) w) f i ≡ w
    entry-store_self m f i w ff hi =
        ground (
          arith,
          mops.load-store m (cell f i) w (cell f i) (cell-mod f i ff hi) (cell-mod f i ff hi),
        )

    pub entry-store_ne :
        (m : mops.Mem) (f i w g j : ℕ)
        → IsFrame f
        → i < 512
        → IsFrame g
        → j < 512
        → (f ≢ g) ⊎ (i ≢ j)
        → entry (mops.store64 m (cell f i) w) g j ≡ entry m g j
    entry-store_ne m f i w g j ff hi fg hj ne = ground (
      arith,
      mops.load-store m (cell f i) w (cell g j) (cell-mod f i ff hi) (cell-mod g j fg hj),
      cell-ne f g i j ff fg hi hj ne,
    )

-- ===== src/Paging/Unmap.antt =====
-- Unmapping a page, level by level: what the walks find before and after.
use rock.Base.{
  ℕ, suc, ◌+◌, ◌<◌, ◌≡◌, ◌≢◌, ◌⊎◌, bit_and, true, false, Option, none, some, List, [], ◌∷◌, length,
  ◌==◌, Run, ok,
}
use rock.Fayt.{MemOps}
use rock.Paging.{flag_p, flag_ps, clear_p, Space, release, write_entry, invlpg}
use rock.Paging.Source.{FrameSource}
use rock.Paging.Entry.{frame_of}
use rock.Paging.Walk.{Below, full, cell, entry, walk, IsTree}

-- the indices without the last one, on a path that has the last one first
abbrev pub inner_path : List ℕ → List ℕ
inner_path [] = []
inner_path (i ∷ p) = p

module _ (mops : MemOps) (high_vma : ℕ) (src : FrameSource mops high_vma) where
  abbrev Sp : Type 0
  Sp = Space mops high_vma src

  -- `table[index] &= ~(X86_FLAGS_P)`, the flush, and the end of the critical section
  abbrev pub clear_entry : Sp → ℕ → ℕ → ℕ → Sp
  clear_entry sp vaddr f i = release mops high_vma src (
      invlpg mops high_vma src
        (write_entry mops high_vma src sp (cell mops high_vma f i)
          (bit_and (entry mops high_vma sp.mem f i) clear_p))
        vaddr)

  -- the code of the unmap functions from the table in frame `f` down, one level after another
  unfoldable pub unmap_levels : Sp → ℕ → ℕ → List ℕ → Run (ℕ × Sp)
  unmap_levels sp vaddr f [] = ok (0, release mops high_vma src sp)
  unmap_levels sp vaddr f (i ∷ []) = ok (0x1000, clear_entry sp vaddr f i)
  unmap_levels sp vaddr f (i ∷ j ∷ []) =
      elim (bit_and (bit_and (entry mops high_vma sp.mem f i) 0xfff) flag_ps == 0) [
        | false ↦ ok (0x200000, clear_entry sp vaddr f i)
        | true ↦ elim (bit_and (entry mops high_vma sp.mem f i) flag_p == 0) [
          | true ↦ ok (0, release mops high_vma src sp)
          | false ↦ ok (0x1000, clear_entry sp vaddr (frame_of (entry mops high_vma sp.mem f i)) j)
        ]
      ]
  unmap_levels sp vaddr f (i ∷ j ∷ k ∷ r) =
      elim (bit_and (entry mops high_vma sp.mem f i) flag_p == 0) [
        | true ↦ ok (0, release mops high_vma src sp)
        | false ↦ unmap_levels sp vaddr (frame_of (entry mops high_vma sp.mem f i)) (j ∷ k ∷ r)
      ]

  -- What unmapping the indices `is` below the table in `f` comes to, with `n` returned.
  pub record Unmapped (depth : ℕ) (sp : Sp) (owner : ℕ → Option (List ℕ)) (f : ℕ) (p is : List ℕ)
      (vaddr n : ℕ) (sp' : Sp) : Type 0 where
    pub tree : IsTree mops high_vma src depth sp'.mem sp'.frames owner
    pub above :
        (g k : ℕ) (q : List ℕ)
        → owner g ≡ some q
        → length q < length p
        → k < 512
        → entry mops high_vma sp'.mem g k ≡ entry mops high_vma sp.mem g k
    pub gone : walk mops high_vma sp'.mem f is ≡ none
    pub others :
        (js : List ℕ) (g : ℕ) (q : List ℕ)
        → owner g ≡ some q
        → length q + length js ≡ suc depth
        → Below js
        → full p is ≢ full q js
        → (n ≡ 0x200000 → inner_path (full p is) ≢ inner_path (full q js))
        → walk mops high_vma sp'.mem g js ≡ walk mops high_vma sp.mem g js
    pub result :
        ((n ≡ 0) × (sp'.flushed ≡ sp.flushed) × (walk mops high_vma sp.mem f is ≡ none))
        ⊎ ((n ≡ 0x1000) ⊎ (n ≡ 0x200000)) × (sp'.flushed ≡ vaddr ∷ sp.flushed)
    pub same_root : sp'.pmlt ≡ sp.pmlt
    pub same_frames : sp'.frames ≡ sp.frames
    pub unlocked : sp'.locked ≡ false

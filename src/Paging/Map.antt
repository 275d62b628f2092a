-- ===== src/Paging/Map.antt =====
-- Mapping a page, level by level: what the walks find before and after.
use rock.Base.{
  ℕ, zero, suc, ◌+◌, ◌<◌, ◌≡◌, ◌≢◌, ◌∙◌, bit_and, false, Option, some, List, [], ◌∷◌, length, Run,
  ok, ◌>>=◌, minus_one, arith,
}
use rock.Fayt.{MemOps}
use rock.Paging.{flag_p, flag_ps, Space, release, write_entry, ensure_table}
use rock.Paging.Source.{FrameSource}
use rock.Paging.Entry.{frame_of}
use rock.Paging.Walk.{Below, full, cell, entry, walk, IsTree}
use rock.Paging.Frame.{walk-present}

module _ (mops : MemOps) (high_vma : ℕ) (src : FrameSource mops high_vma) where
  abbrev Sp : Type 0
  Sp = Space mops high_vma src

  -- the next `n` allocations of a page succeed
  abbrev pub Supply : ℕ → src.S → Type 0
  Supply zero s = Unit
  Supply (suc n) s =
      (m : mops.Mem)
      → (a : ℕ) × (s' : src.S) × (m' : mops.Mem) × (src.alloc_page s m ≡ ok (a, s', m'))
        × (a ≢ minus_one)
        × Supply n s'

  -- no large page stands on the way
  abbrev pub NoHuge : mops.Mem → ℕ → List ℕ → Type 0
  NoHuge m f [] = Unit
  NoHuge m f (i ∷ []) = Unit
  NoHuge m f (i ∷ j ∷ r) =
      bit_and (entry mops high_vma m f i) flag_p ≢ 0
      → (length r ≡ 0 → bit_and (entry mops high_vma m f i) flag_ps ≡ 0)
        × NoHuge m (frame_of (entry mops high_vma m f i)) (j ∷ r)

  -- the code of the map functions from the table in frame `f` down, one level after another
  unfoldable pub map_levels : (ℕ → ℕ) → Sp → ℕ → List ℕ → ℕ → Run (ℕ × Sp)
  map_levels link sp f [] w = ok (0, release mops high_vma src sp)
  map_levels link sp f (i ∷ []) w = ok (
    cell mops high_vma f i,
    release mops high_vma src (write_entry mops high_vma src sp (cell mops high_vma f i) w),
  )
  map_levels link sp f (i ∷ j ∷ r) w =
      ensure_table mops high_vma src link sp (cell mops high_vma f i) >>= λ sp1.
      map_levels link sp1 (frame_of (entry mops high_vma sp1.mem f i)) (j ∷ r) w

  -- What mapping `w` at the indices `is` below the table in `f` comes to.
  pub record Mapped (depth : ℕ) (sp sp' : Sp) (owner owner' : ℕ → Option (List ℕ)) (f : ℕ)
      (p is : List ℕ) (w : ℕ) : Type 0 where
    pub tree : IsTree mops high_vma src depth sp'.mem sp'.frames owner'
    pub extends : (g : ℕ) (q : List ℕ) → owner g ≡ some q → owner' g ≡ some q
    pub above :
        (g j : ℕ) (q : List ℕ)
        → owner g ≡ some q
        → length q < length p
        → j < 512
        → entry mops high_vma sp'.mem g j ≡ entry mops high_vma sp.mem g j
    pub here : walk mops high_vma sp'.mem f is ≡ some w
    pub others :
        (js : List ℕ) (g : ℕ) (q : List ℕ)
        → owner g ≡ some q
        → length q + length js ≡ suc depth
        → Below js
        → full q js ≢ full p is
        → walk mops high_vma sp'.mem g js ≡ walk mops high_vma sp.mem g js
    pub same_root : sp'.pmlt ≡ sp.pmlt
    pub unlocked : sp'.locked ≡ false
    pub same_flushed : sp'.flushed ≡ sp.flushed

  -- What making sure of a table at entry `i` of `f` comes to.
  pub record Ensured (depth : ℕ) (sp sp1 : Sp) (owner owner1 : ℕ → Option (List ℕ)) (f : ℕ)
      (p : List ℕ) (i j : ℕ) (r : List ℕ) : Type 0 where
    pub tree : IsTree mops high_vma src depth sp1.mem sp1.frames owner1
    pub extends : (g : ℕ) (q : List ℕ) → owner g ≡ some q → owner1 g ≡ some q
    pub above :
        (g k : ℕ) (q : List ℕ)
        → owner g ≡ some q
        → length q < length p
        → k < 512
        → entry mops high_vma sp1.mem g k ≡ entry mops high_vma sp.mem g k
    pub present : bit_and (entry mops high_vma sp1.mem f i) flag_p ≢ 0
    pub small : length r ≡ 0 → bit_and (entry mops high_vma sp1.mem f i) flag_ps ≡ 0
    pub child : owner1 (frame_of (entry mops high_vma sp1.mem f i)) ≡ some (i ∷ p)
    pub no_huge : NoHuge sp1.mem (frame_of (entry mops high_vma sp1.mem f i)) (j ∷ r)
    pub walks :
        (js : List ℕ) (g : ℕ) (q : List ℕ)
        → owner g ≡ some q
        → length q + length js ≡ suc depth
        → Below js
        → walk mops high_vma sp1.mem g js ≡ walk mops high_vma sp.mem g js
    pub same_root : sp1.pmlt ≡ sp.pmlt
    pub same_flushed : sp1.flushed ≡ sp.flushed

  -- One level, then the levels below it.
  pub Mapped-Ensured :
      (depth : ℕ) (sp sp1 sp' : Sp) (owner owner1 owner' : ℕ → Option (List ℕ)) (f : ℕ) (p : List ℕ)
      (i j : ℕ) (r : List ℕ) (w : ℕ)
      → owner f ≡ some p
      → i < 512
      → Ensured depth sp sp1 owner owner1 f p i j r
      → Mapped depth sp1 sp' owner1 owner'
          (frame_of (entry mops high_vma sp1.mem f i))
          (i ∷ p)
          (j ∷ r)
          w
      → Mapped depth sp sp' owner owner' f p (i ∷ j ∷ r) w
  Mapped-Ensured depth sp sp1 sp' owner owner1 owner' f p i j r w o hi e d = record {
    tree = d.tree;
    extends = λ g q h. d.extends g q (e.extends g q h);
    above =
        λ g k q h len hk. d.above g k q (e.extends g q h) (omega arith) hk ∙ e.above g k q h len hk;
    here =
        walk-present mops high_vma sp'.mem f i j r (rw kept e.present) (λ l. rw kept (e.small l))
        ∙ rw kept d.here;
    others = λ js g q h len below ne.
        d.others js g q (e.extends g q h) len below ne ∙ e.walks js g q h len below;
    same_root = d.same_root ∙ e.same_root;
    unlocked = d.unlocked;
    same_flushed = d.same_flushed ∙ e.same_flushed;
  }
    where
      kept : entry mops high_vma sp'.mem f i ≡ entry mops high_vma sp1.mem f i
      kept = d.above f i p (e.extends f p o) (omega arith) hi

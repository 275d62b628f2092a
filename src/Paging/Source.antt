-- ===== src/Paging/Source.antt =====
-- Where `paging.c` takes the frames for new tables from: `pmm_alloc(1, 1)`, as an interface.
use rock.Base.{ℕ, ◌+◌, ◌*◌, ◌%◌, ◌^◌, ◌≤◌, ◌<◌, ◌≡◌, ◌≢◌, ◌⊎◌, Run, ok, minus_one, add64}
use rock.Fayt.{MemOps}

pub record FrameSource (mops : MemOps) (high_vma : ℕ) : Type 1 where
  pub S : Type 0
  pub alloc_page : S → mops.Mem → Run (ℕ × S × mops.Mem)
  -- what holds between calls, and which frames may still be handed out
  pub IsReady : S → Type 0
  pub IsFree : S → ℕ → Type 0
  -- A frame that is handed out was free, is free no more, and is cleared.
  pub alloc-IsReady :
      (s s' : S) (m m' : mops.Mem) (a : ℕ)
      → IsReady s
      → alloc_page s m ≡ ok (a, s', m')
      → IsReady s'
  pub alloc-IsFree :
      (s s' : S) (m m' : mops.Mem) (a : ℕ)
      → IsReady s
      → alloc_page s m ≡ ok (a, s', m')
      → a ≢ minus_one
      → IsFree s a × (¬ IsFree s' a)
  pub alloc_shrinks :
      (s s' : S) (m m' : mops.Mem) (a f : ℕ)
      → IsReady s
      → alloc_page s m ≡ ok (a, s', m')
      → IsFree s' f
      → IsFree s f
  pub alloc_frame :
      (s s' : S) (m m' : mops.Mem) (a : ℕ)
      → IsReady s
      → alloc_page s m ≡ ok (a, s', m')
      → a ≢ minus_one
      → (a % 0x1000 ≡ 0) × (a < 2 ^ 47)
  pub alloc_zeroed :
      (s s' : S) (m m' : mops.Mem) (a k : ℕ)
      → IsReady s
      → alloc_page s m ≡ ok (a, s', m')
      → a ≢ minus_one
      → k < 512
      → mops.load64 m' (add64 a high_vma + 8 * k) ≡ 0
  pub alloc_untouched :
      (s s' : S) (m m' : mops.Mem) (a p : ℕ)
      → IsReady s
      → alloc_page s m ≡ ok (a, s', m')
      → a ≢ minus_one
      → (p + 8 ≤ add64 a high_vma) ⊎ (add64 a high_vma + 0x1000 ≤ p)
      → mops.load64 m' p ≡ mops.load64 m p

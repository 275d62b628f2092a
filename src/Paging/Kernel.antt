-- ===== src/Paging/Kernel.antt =====
-- The page tables on the kernel's own allocator: `pmm_alloc(1, 1)` fills the interface of `Source`.
use rock.Base.{ℕ}
use rock.Fayt.{BitOps, Rounding, MemOps}
use rock.Physical.Frames.{SomeFree, Grants-SomeFree, Grants-taken, Grants-frame}
use rock.Physical.Pages.{Modules, IsStarted, alloc_page, granted, IsStarted-after, shrinks}
use rock.Paging.Source.{FrameSource}

module _ (ops : BitOps) (rnd : Rounding) (mops : MemOps) (high_vma fuel : ℕ) where
  -- The allocator keeps what the page tables rely on.
  pub kernel_frames : FrameSource mops high_vma
  kernel_frames = record {
    S = Modules ops rnd mops high_vma fuel;
    alloc_page = alloc_page ops rnd mops high_vma fuel;
    IsReady = IsStarted ops rnd mops high_vma fuel;
    IsFree = SomeFree ops;
    alloc-IsReady = λ s s' m m' a r e. IsStarted-after ops rnd mops high_vma fuel s s' m m' a r e;
    alloc-IsFree = λ s s' m m' a r e ne. (
      Grants-SomeFree ops a (granted ops rnd mops high_vma fuel s s' m m' a r e ne).0,
      Grants-taken ops a (granted ops rnd mops high_vma fuel s s' m m' a r e ne).0 r.disjoint,
    );
    alloc_shrinks = λ s s' m m' a f r e. shrinks ops rnd mops high_vma fuel s s' m m' a r e f;
    alloc_frame = λ s s' m m' a r e ne.
        Grants-frame ops a (granted ops rnd mops high_vma fuel s s' m m' a r e ne).0 r.valid;
    alloc_zeroed = λ s s' m m' a k r e ne h.
        (granted ops rnd mops high_vma fuel s s' m m' a r e ne).1.zeroed k h;
    alloc_untouched = λ s s' m m' a p r e ne h.
        (granted ops rnd mops high_vma fuel s s' m m' a r e ne).1.untouched p h;
  }

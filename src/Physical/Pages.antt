-- ===== src/Physical/Pages.antt =====
-- `pmm_alloc(1, 1)`, the call that the page tables make: no frame is handed out twice.
use rock.Base.{
  ℕ, ◌<◌, ◌≡◌, ◌≢◌, refl, sym, subst, ◌⊎◌, inl, inr, List, [], Run, ok, ◌>>=◌, minus_one, arith,
}
use rock.Fayt.{BitOps, Rounding, MemOps}
use rock.Physical.{Module, pmm_alloc}
use rock.Physical.Search.{IsRequest}
use rock.Physical.Alloc.{IsValid}
use rock.Physical.Modules.{All, Grants, Cleared, pmm_alloc_outcome}
use rock.Physical.Frames.{
  SomeFree, Disjoint, Grants-SomeFree, Grants-taken, Grants-shrinks, Grants-Disjoint, Grants-fuel,
  Grants-some_module,
}

module _ (ops : BitOps) (rnd : Rounding) (mops : MemOps) (high_vma fuel : ℕ) where
  abbrev pub Modules : Type 0
  Modules = List (Module ops)

  -- the list of modules after `pmm_init`, with a round of fuel for each frame
  pub record IsStarted (s : Modules) : Type 0 where
    pub some_module : s ≢ []
    pub valid : All ops (IsValid ops) s
    pub fuel_enough : All ops (λ m. m.bitmap_entry_cnt < fuel) s
    pub disjoint : Disjoint ops s

  abbrev pub alloc_page : Modules → mops.Mem → Run (ℕ × Modules × mops.Mem)
  alloc_page s m =
      pmm_alloc ops rnd mops high_vma fuel (record { modules = s; mem = m }) 1 1 >>= λ (a, p).
      ok (a, p.modules, p.mem)

  pub one_page : IsRequest 1 1
  one_page = record {
    some_frames = omega arith;
    few_frames = omega arith;
    aligned = omega arith;
    small_align = omega arith;
  }

  -- what a run of `alloc_page` says
  abbrev Says : Modules → mops.Mem → Run (ℕ × Modules × mops.Mem) → Type 0
  Says s m (ok (a, s', m')) =
      (Grants ops 1 1 a s s'
        × All ops (IsValid ops) s'
        × Cleared ops rnd fuel 1 1 one_page mops high_vma a m m')
      ⊎ ((a ≡ minus_one) × (s' ≡ s))
  Says s m r = Unit

  alloc_page-Says : (s : Modules) (m : mops.Mem) → IsStarted s → Says s m (alloc_page s m)
  alloc_page-Says s m ready =
      elim (pmm_alloc_outcome ops rnd fuel 1 1 one_page mops high_vma
        (record { modules = s; mem = m }) ready.some_module ready.valid ready.fuel_enough) [
          | inl (a, p', e, g, v, c) ↦ rw e (inl (g, v, c))
          | inr (e, x) ↦ rw e (inr (refl, refl))
        ]

  module _ (s s' : Modules) (m m' : mops.Mem) (a : ℕ) (ready : IsStarted s)
      (e : alloc_page s m ≡ ok (a, s', m')) where
    said : Says s m (ok (a, s', m'))
    said = subst (Says s m) e (alloc_page-Says s m ready)

    pub granted :
        a ≢ minus_one
        → Grants ops 1 1 a s s' × Cleared ops rnd fuel 1 1 one_page mops high_vma a m m'
    granted ne = elim said [ inl (g, v, c) ↦ (g, c) | inr (r, same) ↦ absurd (ne r) ]

    pub IsStarted-after : IsStarted s'
    IsStarted-after = elim said [
      | inl (g, v, c) ↦ record {
        some_module = Grants-some_module ops a g;
        valid = v;
        fuel_enough = Grants-fuel ops a fuel g ready.fuel_enough;
        disjoint = Grants-Disjoint ops a g ready.disjoint;
      }
      | inr (r, same) ↦ subst IsStarted (sym same) ready
    ]

    pub shrinks : (f : ℕ) → SomeFree ops s' f → SomeFree ops s f
    shrinks f = elim said [
      | inl (g, v, c) ↦ Grants-shrinks ops a g f
      | inr (r, same) ↦ subst (λ t. SomeFree ops t f) same
    ]

  -- On a started allocator, a page that `pmm_alloc(1, 1)` hands out was free in one of the modules and
  -- is free in none afterwards, no other frame has become free, and the allocator is still well formed.
  pub pmm_alloc-page_taken :
      (s s' : Modules) (m m' : mops.Mem) (a : ℕ)
      → IsStarted s
      → alloc_page s m ≡ ok (a, s', m')
      → a ≢ minus_one
      → SomeFree ops s a
        × (¬ SomeFree ops s' a)
        × ((f : ℕ) → SomeFree ops s' f → SomeFree ops s f)
        × IsStarted s'
  pmm_alloc-page_taken s s' m m' a r e ne =
      let (g, c) = granted s s' m m' a r e ne in
      (
        Grants-SomeFree ops a g,
        Grants-taken ops a g r.disjoint,
        shrinks s s' m m' a r e,
        IsStarted-after s s' m m' a r e,
      )

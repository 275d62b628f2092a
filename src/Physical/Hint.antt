-- ===== src/Physical/Hint.antt =====
-- What the hint `last_free` hides from `pmm_module_alloc`.
use rock.Base.{ℕ, ◌+◌, ◌<◌, ◌≡◌, inl, inr, minus_one, ok, arith}
use rock.Fayt.{BitOps, Rounding}
use rock.Physical.{Module, module_alloc}
use rock.Physical.Search.{IsRequest}
use rock.Physical.Alloc.{IsValid, module_alloc_outcome}

-- A request that does not fit above the hint is refused, and the module stays as it was, whatever
-- frames below the hint are free. `pmm_module_free` does not move the hint, so this holds again
-- after every free.
pub module_alloc-hint :
    (ops : BitOps) (rnd : Rounding) (m : Module ops) (cnt align fuel : ℕ)
    → IsValid ops m
    → IsRequest cnt align
    → m.bitmap_entry_cnt < fuel
    → m.bitmap_entry_cnt < m.last_free + cnt
    → module_alloc ops rnd fuel m cnt align ≡ ok (minus_one, m)
module_alloc-hint ops rnd m cnt align fuel v q f high =
    elim (module_alloc_outcome ops rnd m cnt align v q fuel f) [
      | inl (a, m', e, g) ↦ absurd (omega (arith, g.above_hint, g.inside))
      | inr (e, x) ↦ e
    ]

-- ===== src/Physical/Tests.antt =====
-- The allocator on a region of 16 frames, and the theorems at such states.
use rock.Base.{
  ℕ, ◌+◌, ◌-◌, ◌≡◌, refl, Bool, true, false, ◌||◌, List, [], ◌∷◌, ltb, Run, ok, deadlock, sub64,
  arith,
}
use rock.Fayt.Models.{bits, rounding, words}
use rock.Physical.Start.{clip, clip-overrun}
use rock.Physical.{
  MemmapEntry, Module, Pmm, scan, take_run, search_run, module_alloc, module_free, alloc_from,
  pmm_alloc,
}
use rock.Physical.Runs.{in_run}
use rock.Physical.Search.{IsRequest}
use rock.Physical.Alloc.{IsValid, Granted, ModuleOutcome, module_alloc_outcome}
use rock.Physical.Free.{free-alloc}
use rock.Physical.Modules.{PmmOutcome, pmm_alloc_outcome}
use rock.Physical.Frames.{Apart}
use rock.Physical.Pages.{IsStarted, alloc_page}

-- 16 frames from 1 MiB on, the first three in use
abbrev region : (ℕ → Bool) → ℕ → ℕ → Module bits
region b base hint = record {
  mmap_entry = record { base = base; length = 0x10000; kind = 0 };
  bitmap_size = 2;
  bitmap_entry_cnt = 16;
  last_free = hint;
  bitmap = b;
  locked = false;
}

abbrev three : ℕ → Bool
three j = ltb j 3

abbrev low : Module bits
low = region three 0x100000 3

abbrev high : Module bits
high = region (λ j. false) 0x200000 0

abbrev high_vma : ℕ
high_vma = 0xffff800000000000

abbrev two_modules : Pmm bits rounding words high_vma
two_modules = record { modules = low ∷ high ∷ []; mem = λ p. 7 }

address_of : {A : Type 0} → Run (ℕ × A) → ℕ
address_of (ok (a, r)) = a
address_of r = 1

-- two frames at a multiple of four frames
aligned_run : address_of (module_alloc bits rounding 17 low 2 4) ≡ 0x104000
unfolding address_of module_alloc search_run scan take_run
aligned_run = refl

second_module : address_of (pmm_alloc bits rounding words high_vma 17 two_modules 14 1) ≡ 0x200000
unfolding address_of pmm_alloc alloc_from module_alloc search_run scan take_run
second_module = refl

locked_module : module_alloc bits rounding 17 (record low { locked = true }) 1 1 ≡ deadlock
unfolding module_alloc
locked_module = refl

low-IsValid : IsValid bits low
low-IsValid = ground arith

high-IsValid : IsValid bits high
high-IsValid = ground arith

request : IsRequest 2 4
request = omega arith

abbrev taken_two : Module bits
taken_two = record low { bitmap = λ j. in_run 4 2 j || ltb j 3; last_free = 6 }

Granted-two : Granted bits low 2 4 0x104000 taken_two
Granted-two = record {
  frame = 4;
  address = refl;
  aligned = refl;
  inside = omega arith;
  above_hint = omega arith;
  was_free = λ k h. ground arith;
  now_taken = λ j. ground arith;
  same_entry = refl;
  same_count = refl;
  valid = ground arith;
}

Granted-next :
    Granted bits taken_two 1 1 0x106000
      (record taken_two { bitmap = λ j. in_run 6 1 j || (in_run 4 2 j || ltb j 3); last_free = 7 })
Granted-next = record {
  frame = 6;
  address = refl;
  aligned = refl;
  inside = omega arith;
  above_hint = omega arith;
  was_free = λ k h. ground arith;
  now_taken = λ j. ground arith;
  same_entry = refl;
  same_count = refl;
  valid = ground arith;
}

module_alloc_outcome_example : ModuleOutcome bits low 2 4 (module_alloc bits rounding 17 low 2 4)
module_alloc_outcome_example =
    module_alloc_outcome bits rounding low 2 4 low-IsValid request 17 (omega arith)

free-alloc_example :
    (m'' : Module bits) × (module_free bits rounding taken_two (sub64 0x104000 0x100000) 2 ≡ ok m'')
    × ((j : ℕ) → m''.bitmap j ≡ low.bitmap j)
    × IsValid bits m''
free-alloc_example = free-alloc bits rounding low taken_two 2 4 0x104000 low-IsValid Granted-two

pmm_alloc_outcome_example :
    PmmOutcome bits rounding 17 14 1
      (omega arith)
      words
      high_vma
      two_modules
      (pmm_alloc bits rounding words high_vma 17 two_modules 14 1)
pmm_alloc_outcome_example =
    pmm_alloc_outcome bits rounding 17 14 1 (omega arith) words high_vma two_modules (λ e. cc e)
      (low-IsValid, (high-IsValid, tt)) (omega arith)

-- the first page that the two modules hand out
abbrev after_page : Run (ℕ × List (Module bits) × (ℕ → ℕ)) → List (Module bits) × (ℕ → ℕ)
after_page (ok (a, s, m)) = (s, m)
after_page r = ([], λ p. 0)

abbrev first_page : Run (ℕ × List (Module bits) × (ℕ → ℕ))
first_page = alloc_page bits rounding words high_vma 17 (low ∷ high ∷ []) (λ p. 7)

first_page_is : first_page ≡ ok (0x103000, (after_page first_page).0, (after_page first_page).1)
unfolding pmm_alloc alloc_from module_alloc search_run scan take_run
first_page_is = refl

low-high-Apart : Apart bits low high
low-high-Apart f c c' = omega (arith, c.address, c.inside, c'.address, c'.inside)

two-IsStarted : IsStarted bits rounding words high_vma 17 (low ∷ high ∷ [])
two-IsStarted = record {
  some_module = λ e. absurd cc;
  valid = (low-IsValid, (high-IsValid, tt));
  fuel_enough = (omega arith, (omega arith, tt));
  disjoint = ((low-high-Apart, tt), (tt, tt));
}

-- a region of sixteen pages at 2 MiB
abbrev paged_entry : MemmapEntry
paged_entry = record { base = 0x200000; length = 0x10000; kind = 0 }

-- the region from 0x9000 to 2 MiB
abbrev low_region : MemmapEntry
low_region = record { base = 0x9000; length = 0x1f7000; kind = 0 }

clip-overrun_example :
    ((clip low_region).base ≡ 0x100000)
    × ((clip low_region).base + (clip low_region).length ≡ 0x9000 + 0x1f7000 + (0x100000 - 0x9000))
clip-overrun_example = clip-overrun low_region (omega arith) (omega arith) (omega arith)

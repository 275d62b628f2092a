-- ===== src/Physical.antt =====
-- kernel/core/physical.c: the physical frame allocator, a list of bitmap modules.
-- A `-1` is the `uint64_t` `minus_one`. The linked list of modules is a list, and a lock is the
-- Boolean that says whether it is held.
pub mod Runs
pub mod Search
pub mod Alloc
pub mod Free
pub mod Modules
pub mod Hint
pub mod Owner
pub mod Start
pub mod Frames
pub mod Pages
mod Tests
use rock.Base.{
  ℕ, zero, suc, ◌+◌, ◌-◌, ◌/◌, Bool, true, false, ◌&&◌, List, [], ◌∷◌, ltb, leb, ◌==◌,
  if◌then◌else◌, add64, sub64, mul64, minus_one, page_size, Run, ok, fault, deadlock, out_of_fuel,
  ◌>>=◌,
}
use rock.Fayt.{BitOps, Rounding, MemOps}

-- `struct limine_memmap_entry`
pub record MemmapEntry : Type 0 where
  pub base : ℕ
  pub length : ℕ
  pub kind : ℕ

-- how the inner loop of `pmm_module_alloc` ends: at a set bit, at its `return`, or by its test
pub data Scan : Type 0 where
  taken : Scan
  found : (j count : ℕ) → Scan
  ended : Scan

module _ (ops : BitOps) where
  open ops use {Bits, bit_test, bit_set, bit_clear}

  -- `struct pmm_module`
  pub record Module : Type 0 where
    pub mmap_entry : MemmapEntry
    pub bitmap_size : ℕ
    pub bitmap_entry_cnt : ℕ
    pub last_free : ℕ
    pub bitmap : Bits
    pub locked : Bool

  -- for(j = i, count = 0; j < (i + cnt); j++), with the rounds left
  pub scan : Bits → ℕ → ℕ → ℕ → ℕ → Scan
  scan bits cnt zero j count = ended
  scan bits cnt (suc left) j count =
      let rest = scan bits cnt left (j + 1) (count + 1) in
      if bit_test bits j then taken else if count + 1 == cnt then found j (count + 1) else rest

  -- for(z = 0; z < count; z++) BIT_SET(bitmap, i + z), with the rounds left
  pub set_run : Bits → ℕ → ℕ → Bits
  set_run bits zero i = bits
  set_run bits (suc left) i = set_run (bit_set bits i) left (i + 1)

  -- last_free = 0, then the first clear bit from `z` on, with the rounds left
  pub next_free : Bits → ℕ → ℕ → ℕ
  next_free bits zero z = 0
  next_free bits (suc left) z =
      let rest = next_free bits left (z + 1) in if bit_test bits z then rest else z

  pub clear_run : Bits → ℕ → ℕ → Bits
  clear_run bits zero i = bits
  clear_run bits (suc left) i = clear_run (bit_clear bits i) left (i + 1)

  abbrev pub unlock : Module → Module
  unlock m = record m { locked = false }

  -- the statements under `++count == cnt`
  pub take_run : Module → ℕ → ℕ → ℕ → Module
  take_run m i j count =
      let bits = set_run m.bitmap count i in
      record m { bitmap = bits; last_free = next_free bits (m.bitmap_entry_cnt - j) j }

  -- the outer loop of `pmm_module_alloc`, on fuel; `i + z` and `j++` stay below `i + cnt`
  pub search_run : ℕ → Module → ℕ → ℕ → ℕ → ℕ → Run (ℕ × Module)
  search_run zero m cnt align i alloc_base = out_of_fuel
  search_run (suc fuel) m cnt align i alloc_base = elim (ltb i m.bitmap_entry_cnt) [
    | false ↦ ok (minus_one, unlock m)
    | true ↦ elim (ltb m.bitmap_entry_cnt (add64 i cnt)) [
      | true ↦ ok (minus_one, unlock m)
      | false ↦ elim (scan m.bitmap cnt (add64 i cnt - i) i 0) [
        | taken ↦
            search_run fuel m cnt align (add64 i align) (add64 alloc_base (mul64 align page_size))
        | found j count ↦ ok (alloc_base, unlock (take_run m i j count))
        | ended ↦ search_run fuel m cnt align (add64 i align) alloc_base
      ]
    ]
  ]

  module _ (rnd : Rounding) where
    open rnd use {div_roundup, align_up}

    -- where the search of `pmm_module_alloc` starts, as an address
    abbrev pub first_base : Module → ℕ → ℕ
    first_base m align =
        align_up (add64 m.mmap_entry.base (mul64 m.last_free page_size)) (mul64 align page_size)

    abbrev pub first_bit : Module → ℕ → ℕ
    first_bit m align = sub64 (first_base m align) m.mmap_entry.base / page_size

    pub module_alloc : ℕ → Module → ℕ → ℕ → Run (ℕ × Module)
    module_alloc fuel m cnt align =
        if m.locked
        then deadlock
        else search_run fuel (record m { locked = true }) cnt align (first_bit m align)
            (first_base m align)

    pub module_free : Module → ℕ → ℕ → Run Module
    module_free m base cnt =
        let first = div_roundup base page_size in
        if m.locked
        then deadlock
        else ok (record m { bitmap = clear_run m.bitmap (add64 first cnt - first) first })

    -- the rest of the walk in `pmm_alloc`, after the root
    pub alloc_from : ℕ → ℕ → ℕ → List Module → Run (ℕ × List Module)
    alloc_from fuel cnt align [] = ok (minus_one, [])
    alloc_from fuel cnt align (m ∷ ms) =
        let rest = alloc_from fuel cnt align ms in
        module_alloc fuel m cnt align >>= λ (a, m'). elim (a == minus_one) [
          | true ↦ rest >>= λ (b, ms'). ok (b, m' ∷ ms')
          | false ↦ ok (a, m' ∷ ms)
        ]

    pub free_in : ℕ → ℕ → List Module → Run (List Module)
    free_in base cnt [] = ok []
    free_in base cnt (m ∷ ms) =
        let start = m.mmap_entry.base in
        let limit = add64 start (mul64 m.bitmap_entry_cnt page_size) in
        let rest = free_in base cnt ms in
        elim (leb start base && leb (add64 start (mul64 cnt page_size)) limit) [
          | true ↦ module_free m (sub64 base start) cnt >>= λ m'. ok (m' ∷ ms)
          | false ↦ rest >>= λ ms'. ok (m ∷ ms')
        ]

    module _ (mops : MemOps) (high_vma : ℕ) where
      open mops use {Mem, memset64}

      -- the allocator's static state, and the memory that it clears
      pub record Pmm : Type 0 where
        pub modules : List Module
        pub mem : Mem

      -- `root_module` is NULL before `pmm_init`
      pub pmm_alloc : ℕ → Pmm → ℕ → ℕ → Run (ℕ × Pmm)
      pmm_alloc fuel p cnt align = elim p.modules [
        | [] ↦ fault
        | _ ∷ _ ↦ alloc_from fuel cnt align p.modules >>= λ (a, ms).
            if a == minus_one
            then ok (minus_one, record p { modules = ms })
            else ok (
              a,
              record {
                modules = ms;
                mem = memset64 p.mem (add64 a high_vma) 0 (mul64 cnt page_size / 8);
              },
            )
      ]

      pub pmm_free : Pmm → ℕ → ℕ → Run Pmm
      pmm_free p base cnt = elim p.modules [
        | [] ↦ fault
        | _ ∷ _ ↦ free_in base cnt p.modules >>= λ ms. ok (record p { modules = ms })
      ]

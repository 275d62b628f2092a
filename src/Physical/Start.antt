-- ===== src/Physical/Start.antt =====
-- kernel/core/physical.c: pmm_init, as far as the regions and the places of the modules go.
-- The memory map is a list of entries that are changed in place. `module_size` is the size of
-- struct pmm_module, whose lock is of fayt. That the modules are zeroed is not modelled.
use rock.Base.{
  ℕ, ◌+◌, ◌*◌, ◌-◌, ◌/◌, ◌%◌, ◌^◌, ◌<◌, ◌≤◌, ◌≡◌, refl, ◌⊎◌, Bool, true, false, ◌&&◌, not, Option,
  none, some, List, [], ◌∷◌, ltb, leb, ◌==◌, if◌then◌else◌, add64, sub64, mul64, page_size, arith,
}
use rock.Fayt.{Rounding}
use rock.Physical.{MemmapEntry}

abbrev pub limine_memmap_usable : ℕ
limine_memmap_usable = 0

abbrev usable : MemmapEntry → Bool
usable e = e.kind == limine_memmap_usable

-- the part of the first loop that takes the first megabyte from an entry
pub clip : MemmapEntry → MemmapEntry
clip e =
    if ltb e.base 0x100000
    then (if ltb e.length (0x100000 - e.base)
        then record e { length = 0 }
        else (let base = add64 e.base (0x100000 - e.base) in
            record e { base = base; length = sub64 e.length (sub64 0x100000 base) }))
    else e

module _ (rounding : Rounding) (module_size : ℕ) where
  open rounding use {div_roundup, align_up}

  -- the first loop: the size of the buffer, and the entries it leaves
  pub measure : ℕ → List MemmapEntry → ℕ × List MemmapEntry
  measure size [] = (size, [])
  measure size (e ∷ es) =
      let needed = add64 (mul64 module_size 2) (div_roundup (div_roundup e.length page_size) 8) in
      let rest = measure (if usable e then add64 size needed else size) es in
      (rest.0, clip e ∷ rest.1)

  -- the entry without the buffer at its start
  unfoldable pub without_buffer : ℕ → MemmapEntry → MemmapEntry
  without_buffer size e = record e {
    base = align_up (add64 e.base size) page_size;
    length = sub64 e.length size / page_size * page_size;
  }

  -- the second loop: where the buffer is taken from, if an entry has room for it
  unfoldable pub reserve : ℕ → List MemmapEntry → Option ℕ × List MemmapEntry
  reserve size [] = (none, [])
  reserve size (e ∷ es) =
      let rest = reserve size es in
      if usable e && leb size e.length
      then (some e.base, without_buffer size e ∷ es)
      else (rest.0, e ∷ rest.1)

  -- where a module and its bitmap are put
  pub record Placed : Type 0 where
    pub entry : MemmapEntry
    pub address : ℕ
    pub bitmap : ℕ
    pub bitmap_size : ℕ
    pub bitmap_entry_cnt : ℕ

  -- pmm_init_module
  pub pmm_init_module : ℕ → ℕ → MemmapEntry → Placed × ℕ
  pmm_init_module address meta_buffer e =
      let page_cnt = div_roundup e.length page_size in
      let size = div_roundup page_cnt 8 in
      (
        record {
          entry = e;
          address = address;
          bitmap = meta_buffer;
          bitmap_size = size;
          bitmap_entry_cnt = page_cnt;
        },
        add64 meta_buffer size,
      )

  -- the third loop
  pub place : ℕ → ℕ → List MemmapEntry → List Placed × ℕ
  place high_vma meta_buffer [] = ([], meta_buffer)
  place high_vma meta_buffer (e ∷ es) =
      let address = add64 (align_up (sub64 meta_buffer high_vma) module_size) high_vma in
      let made = pmm_init_module address (add64 address (mul64 module_size 2)) e in
      let rest = place high_vma made.1 es in
      let skipped = place high_vma meta_buffer es in
      if usable e && not (e.length == 0) then (made.0 ∷ rest.0, rest.1) else skipped

  -- `meta_buffer` is NULL where no entry has room
  pub pmm_init : ℕ → List MemmapEntry → List Placed × ℕ
  pmm_init high_vma es =
      let measured = measure 0 es in
      let reserved = reserve measured.0 measured.1 in
      let meta_buffer = elim reserved.0 as (λ x. ℕ) [
        | none ↦ 0
        | some base ↦ add64 base high_vma
      ] in
      place high_vma meta_buffer reserved.1

  -- an entry that begins and ends at pages
  pub record IsPaged (e : MemmapEntry) : Type 0 where
    pub low : e.base % page_size ≡ 0
    pub whole : e.length % page_size ≡ 0
    pub fits : e.base + e.length < 2 ^ 63

  abbrev pub AllPaged : List MemmapEntry → Type 0
  AllPaged [] = Unit
  AllPaged (e ∷ es) = IsPaged e × AllPaged es

  -- The buffer is at the start of the old entry, and the new one is what is behind it.
  pub record Behind (size meta : ℕ) (old new : MemmapEntry) : Type 0 where
    pub at_start : meta ≡ old.base
    pub after_buffer : meta + size ≤ new.base
    pub before_end : new.base + new.length ≤ old.base + old.length

  -- the entry is as it was, or the buffer was taken from its start
  abbrev pub Kept : ℕ → Option ℕ → MemmapEntry → MemmapEntry → Type 0
  Kept size taken old new =
      (new ≡ old) ⊎ ((meta : ℕ) × (taken ≡ some meta) × Behind size meta old new)

-- A region that begins in the first megabyte and ends behind it keeps its length where it loses its
-- start: it ends later than the region of the memory map, by what it has lost.
pub clip-overrun :
    (e : MemmapEntry)
    → e.base < 0x100000
    → 0x100000 - e.base ≤ e.length
    → e.length < 2 ^ 64
    → ((clip e).base ≡ 0x100000)
      × ((clip e).base + (clip e).length ≡ e.base + e.length + (0x100000 - e.base))
unfolding clip
clip-overrun e low long w =
    let is_low : ltb e.base 0x100000 ≡ true = ground (arith, low) in
    let is_long : ltb e.length (0x100000 - e.base) ≡ false = ground (arith, long) in
    let base : add64 e.base (0x100000 - e.base) ≡ 0x100000 = omega (arith, low) in
    let nothing : sub64 e.length (sub64 0x100000 0x100000) ≡ e.length = omega (arith, w) in
    rw (clip, is_low, is_long, base, nothing) (refl, omega (arith, low))

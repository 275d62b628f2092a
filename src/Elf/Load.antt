-- ===== src/Elf/Load.antt =====
-- What elf64_file_load puts into memory.
use rock.Base.{
  ==_iff, ℕ, zero, suc, ◌+◌, ◌-◌, ◌*◌, ◌/◌, ◌%◌, ◌^◌, ◌≤◌, ◌<◌, ◌≡◌, refl, ap, ◌∙◌, true, false,
  Bool, some, List, [], ◌∷◌, ltb, ◌==◌, length, get_elem?, ok, fault, arith, Leaves, Leaves-ok,
  Leaves-fault, Leaves-bind, if◌then◌else◌, bit_and, add64, sub64, mul64, page_size,
}
use rock.Base.Bits.Page.{bit_and-offset, bit_and-floor}
use rock.Fayt.{Rounding}
use rock.Elf.{ElfPhdr, ElfFile}
use rock.Elf.Segments.{
  Memory, elf_pt_load, misalignment_of, page_flags, page_cnt, map_pages, map_part,
  elf64_load_section, page_bytes, copy_pages, load_segment, load_segments, elf64_file_load,
  bss_name,
}

one_more :
    (t : Bool) (c : ℕ)
    → c < 2 ^ 63
    → (c ≤ (if t then add64 c 1 else c)) × ((if t then add64 c 1 else c) ≤ c + 1)
one_more true c h = (omega arith, omega arith)
one_more false c h = (omega arith, omega arith)

module _ (rounding : Rounding) where
  -- The pages of a segment or section cover it, and are at most one more than it needs.
  pub page_cnt_bounds :
      (mis size : ℕ)
      → mis < page_size
      → mis + size + 2 * page_size < 2 ^ 64
      → (mis + size ≤ page_cnt rounding mis size * page_size)
        × (page_cnt rounding mis size * page_size < mis + size + 2 * page_size)
  unfolding page_cnt
  page_cnt_bounds mis size hm hs =
      let sum : add64 mis size ≡ mis + size = omega arith in
      let room = rounding.div_roundup_bounds (mis + size) page_size (omega arith) (omega arith) in
      let c = rounding.div_roundup (mis + size) page_size in
      rw (page_cnt, sum)
        (omega (
          arith,
          room,
          one_more
              (ltb (bit_and (sub64 (add64 size page_size) 1) (2 ^ 64 - page_size)) (mis + size)) c
              (omega (arith, room)),
        ))

  pub page_cnt-aligned :
      (size : ℕ)
      → size + 2 * page_size < 2 ^ 64
      → (size ≤ page_cnt rounding 0 size * page_size)
        × (page_cnt rounding 0 size * page_size < size + page_size)
  unfolding page_cnt
  page_cnt-aligned size hs =
      let sum : add64 0 size ≡ size = omega arith in
      let above : sub64 (add64 size page_size) 1 ≡ size + 4095 = omega arith in
      let rounded = bit_and-floor (size + 4095) (omega arith) in
      let enough : ltb (4096 * ((size + 4095) / 4096)) size ≡ false = ground arith in
      let room = rounding.div_roundup_bounds size page_size (omega arith) (omega arith) in
      rw (page_cnt, sum, above, rounded, enough) room

  module _ (memory : Memory) (high_vma : ℕ) (file : ElfFile) where
    open memory use {State, copy}

    small_first :
        (s : State) (phdr : ElfPhdr) (frames : List ℕ)
        → phdr.p_filesz < page_size
        → 1 ≤ length frames
        → copy_pages rounding memory high_vma file s phdr frames 0 ≡ fault
    unfolding copy_pages page_bytes
    small_first s phdr [] h l = absurd (omega arith)
    small_first s phdr (f ∷ fs) h l =
        let less : ltb phdr.p_filesz (page_size + 0 * page_size) ≡ true = ground arith in
        rw (copy_pages, page_bytes, less) refl

    pub map_pages-length :
        (s : State) (base flags left j : ℕ)
        → Leaves (map_pages rounding memory high_vma s base flags left j) (λ r. length r.0 ≡ left)
    unfolding map_pages
    map_pages-length s base flags zero j = Leaves-ok refl
    map_pages-length s base flags (suc left) j = Leaves-bind (memory.alloc_page s) _ λ a e.
        Leaves-bind (memory.map_page a.1 (add64 base (mul64 j page_size)) a.0 flags) _ λ s' e'.
          Leaves-bind (map_pages rounding memory high_vma s' base flags left (j + 1)) _ λ rest e''.
            Leaves-ok (ap suc ((map_pages-length s' base flags left (j + 1)).at rest e''))

    -- `page_cnt` is not 0
    abbrev Nonempty : ElfPhdr → Type 0
    Nonempty phdr = 1 ≤ page_cnt rounding (misalignment_of phdr.p_vaddr) phdr.p_filesz

    small_segment :
        (s : State) (phdr : ElfPhdr)
        → phdr.p_filesz < page_size
        → Nonempty phdr
        → Leaves (load_segment rounding memory high_vma file s phdr) (λ s'. ⊥)
    unfolding load_segment
    small_segment s phdr small pages =
        let open_pages = page_cnt rounding (misalignment_of phdr.p_vaddr) phdr.p_filesz in
        let some_open : (open_pages == 0) ≡ false = ground (arith, pages) in
        rw (load_segment, some_open)
          (Leaves-bind
            (map_part rounding memory high_vma s phdr.p_vaddr file.load_offset phdr.p_filesz
              phdr.p_flags)
            (λ r. copy_pages rounding memory high_vma file r.1 phdr r.0 0)
            λ r e'.
              let frames =
                (map_pages-length s
                    (sub64 (add64 phdr.p_vaddr file.load_offset) (misalignment_of phdr.p_vaddr))
                    (page_flags phdr.p_flags) open_pages 0).at
                  r e' in
              rw (small_first r.1 phdr r.0 small (omega (arith, frames, pages))) Leaves-fault)

    load_segments-small :
        (s : State) (phdrs : List ElfPhdr) (i : ℕ) (phdr : ElfPhdr)
        → get_elem? phdrs i ≡ some phdr
        → phdr.p_type ≡ elf_pt_load
        → phdr.p_filesz < page_size
        → Nonempty phdr
        → Leaves (load_segments rounding memory high_vma file s phdrs) (λ s'. ⊥)
    unfolding load_segments
    load_segments-small s [] i phdr e t small n = absurd cc
    load_segments-small s (p ∷ ps) zero phdr e t small n =
        let same : p ≡ phdr = cc in
        let loads : (p.p_type == elf_pt_load) ≡ true =
          (==_iff _ _).1 (ap (λ x. x.p_type) same ∙ t) in
        rw (load_segments, loads)
          (Leaves-bind (load_segment rounding memory high_vma file s p)
            (λ s'. load_segments rounding memory high_vma file s' ps)
            λ s' e'. absurd ((small_segment s p (rw same small) (rw same n)).at s' e'))
    load_segments-small s (p ∷ ps) (suc i) phdr e t small n =
        Leaves-bind _ _ λ s' e'. load_segments-small s' ps i phdr e t small n

    some_page :
        (phdr : ElfPhdr)
        → phdr.p_filesz < page_size
        → 1 ≤ phdr.p_vaddr % page_size + phdr.p_filesz
        → Nonempty phdr
    some_page phdr small n = omega (
      arith,
      bit_and-offset phdr.p_vaddr,
      page_cnt_bounds (misalignment_of phdr.p_vaddr) phdr.p_filesz
          (omega (arith, bit_and-offset phdr.p_vaddr)) (omega (arith, bit_and-offset phdr.p_vaddr)),
    )

    -- If the file has a segment to load, of less than a page of data and not without any page,
    -- elf64_file_load does not return.
    pub elf64_file_load-small :
        (s s' : State) (i : ℕ) (phdr : ElfPhdr)
        → get_elem? file.phdr i ≡ some phdr
        → phdr.p_type ≡ elf_pt_load
        → phdr.p_filesz < page_size
        → 1 ≤ phdr.p_vaddr % page_size + phdr.p_filesz
        → ¬ (elf64_file_load rounding memory high_vma file s ≡ ok s')
    unfolding elf64_file_load
    elf64_file_load-small s s' i phdr e t small n run =
        (Leaves-bind (elf64_load_section rounding memory high_vma file s bss_name)
            (λ x. load_segments rounding memory high_vma file x file.phdr)
            λ x e'. load_segments-small x file.phdr i phdr e t small (some_page phdr small n)).at
          s' run

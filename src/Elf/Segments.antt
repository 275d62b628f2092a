-- ===== src/Elf/Segments.antt =====
-- kernel/core/elf.c: elf64_load_section and elf64_file_load.
-- The memory that they fill is a parameter: `pmm_alloc(1, 1)`, `map_page` of the file's page table,
-- and the copy of bytes to an address. The arrays of frames on the stack have room.
use rock.Base.{
  ℕ, zero, suc, ◌+◌, ◌-◌, ◌*◌, ◌%◌, ◌^◌, bit_and, bit_or, Bool, true, false, List, [], ◌∷◌, ltb,
  ◌==◌, if◌then◌else◌, Run, ok, fault, ◌>>=◌, drop, add64, sub64, mul64, page_size,
}
use rock.Fayt.{Rounding}
use rock.Paging.{flag_p, flag_rw, flag_us, flag_nx}
use rock.Elf.{ElfPhdr, ElfShdr, ElfFile, elf64_read}

pub record Memory : Type 1 where
  pub State : Type 0
  pub alloc_page : State → Run (ℕ × State)
  pub map_page : State → ℕ → ℕ → ℕ → Run State
  pub copy : State → ℕ → List ℕ → Run State

abbrev pub elf_pt_load : ℕ
elf_pt_load = 1

abbrev pub elf_pf_w : ℕ
elf_pf_w = 2

abbrev pub elf_pf_x : ℕ
elf_pf_x = 4

abbrev pub misalignment_of : ℕ → ℕ
misalignment_of addr = bit_and addr (page_size - 1)

-- the flags of the pages of a segment or a section, from its own flags
abbrev pub page_flags : ℕ → ℕ
page_flags own =
    let base = bit_or (bit_or flag_p flag_us) flag_nx in
    let writable = if bit_and own elf_pf_w == 0 then base else bit_or base flag_rw in
    if bit_and own elf_pf_x == 0 then writable else bit_and writable (2 ^ 64 - 1 - flag_nx)

-- `memcmp(at, name, strlen(name)) == 0`, which reads up to the first difference
abbrev pub memcmp_is : List ℕ → List ℕ → Run Bool
memcmp_is at [] = ok true
memcmp_is [] (c ∷ name) = fault
memcmp_is (b ∷ at) (c ∷ name) = if b == c then memcmp_is at name else ok false

-- ".bss"
abbrev pub bss_name : List ℕ
bss_name = 46 ∷ 98 ∷ 115 ∷ 115 ∷ []

module _ (rounding : Rounding) where
  open rounding use {div_roundup}

  unfoldable pub page_cnt : ℕ → ℕ → ℕ
  page_cnt misalignment size =
      let cnt = div_roundup (add64 misalignment size) page_size in
      let rounded = bit_and (sub64 (add64 size page_size) 1) (2 ^ 64 - page_size) in
      if ltb rounded (add64 misalignment size) then add64 cnt 1 else cnt

  module _ (memory : Memory) (high_vma : ℕ) where
    open memory use {State, alloc_page, map_page, copy}

    -- the loop that maps `left` pages from the `j`-th on, with the frames it took
    unfoldable pub map_pages : State → ℕ → ℕ → ℕ → ℕ → Run (List ℕ × State)
    map_pages s base flags zero j = ok ([], s)
    map_pages s base flags (suc left) j = do
      a ← alloc_page s
      s' ← map_page a.1 (add64 base (mul64 j page_size)) a.0 flags
      rest ← map_pages s' base flags left (j + 1)
      ok (a.0 ∷ rest.0, rest.1)

    abbrev pub map_part : State → ℕ → ℕ → ℕ → ℕ → Run (List ℕ × State)
    map_part s addr load_offset size flags =
        map_pages s (sub64 (add64 addr load_offset) (misalignment_of addr)) (page_flags flags)
          (page_cnt (misalignment_of addr) size) 0

    -- the sections from the `i`-th on
    unfoldable pub load_section_from : ElfFile → State → List ℕ → List ElfShdr → Run State
    load_section_from file s name [] = ok s
    load_section_from file s name (shdr ∷ more) =
        let rest = load_section_from file s name more in
        memcmp_is (drop shdr.sh_name file.strtab) name >>= λ same.
        if same
        then (if page_cnt (misalignment_of shdr.sh_addr) shdr.sh_size == 0
            then rest
            else (map_part s shdr.sh_addr file.load_offset shdr.sh_size shdr.sh_flags >>= λ r.
                ok r.1))
        else rest

    pub elf64_load_section : ElfFile → State → List ℕ → Run State
    elf64_load_section file s name = load_section_from file s name file.shdr

    -- how much of the segment goes to the `j`-th page: a division by zero faults
    unfoldable pub page_bytes : ElfPhdr → ℕ → Run ℕ
    page_bytes phdr j =
        if ltb phdr.p_filesz (page_size + j * page_size)
        then (if j == 0 then fault else ok (phdr.p_filesz % (j * page_size)))
        else ok page_size

    -- the loop that copies to the frames, from the `j`-th on
    unfoldable pub copy_pages : ElfFile → State → ElfPhdr → List ℕ → ℕ → Run State
    copy_pages file s phdr [] j = ok s
    copy_pages file s phdr (frame ∷ frames) j = do
      cnt ← page_bytes phdr j
      let skip = if j == 0 then misalignment_of phdr.p_vaddr else 0
      r ← elf64_read file.image (add64 phdr.p_offset (j * page_size) % 2 ^ 32) (sub64 cnt skip)
      s' ← copy s (add64 (add64 frame high_vma) skip) r.1
      copy_pages file s' phdr frames (j + 1)

    unfoldable pub load_segment : ElfFile → State → ElfPhdr → Run State
    load_segment file s phdr =
        if page_cnt (misalignment_of phdr.p_vaddr) phdr.p_filesz == 0
        then ok s
        else map_part s phdr.p_vaddr file.load_offset phdr.p_filesz phdr.p_flags >>= λ r.
            copy_pages file r.1 phdr r.0 0

    unfoldable pub load_segments : ElfFile → State → List ElfPhdr → Run State
    load_segments file s [] = ok s
    load_segments file s (phdr ∷ more) = do
      s' ← if phdr.p_type == elf_pt_load then load_segment file s phdr else ok s
      load_segments file s' more

    unfoldable pub elf64_file_load : ElfFile → State → Run State
    elf64_file_load file s = do
      s' ← elf64_load_section file s bss_name
      load_segments file s' file.phdr

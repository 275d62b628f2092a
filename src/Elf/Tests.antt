-- ===== src/Elf/Tests.antt =====
-- A file of one segment, laid out by hand.
use rock.Base.{
  ℕ, zero, suc, ◌+◌, ◌%◌, ◌/◌, ◌^◌, ◌<◌, ◌≡◌, refl, sym, ap, subst, some, List, [], ◌∷◌, ◌++◌,
  length, take, drop, ok, ◌>>=◌, arith, page_size,
}
use rock.Fayt.Models.{rounding}
use rock.Elf.{
  Around, ElfData, ElfPhdr, ElfFile, memcpy_from, elf64_read, elf64_file_init, elf64_validate,
  elf64_file_aux, read_hdr, read_phdr, read_shdr,
}
use rock.Elf.Read.{elf64_read_lem}
use rock.Elf.Init.{InRange, Accepted, elf64_file_init-Accepted}
use rock.Elf.Segments.{Memory, map_part, load_segment}
use rock.Elf.Copy.{fill_frames, load_segment-fill}

-- `n` bytes of the number `x`
abbrev le : ℕ → ℕ → List ℕ
le zero x = []
le (suc n) x = x % 256 ∷ le n (x / 256)

-- a header with one program header at 64 and one section header at 120, which is the names'
abbrev header_bytes : List ℕ
header_bytes =
    (0x7F ∷ 0x45 ∷ 0x4C ∷ 0x46 ∷ 2 ∷ 1 ∷ 1 ∷ le 9 0)
    ++ le 2 2
    ++ le 2 0x3e
    ++ le 4 1
    ++ le 8 0x401000
    ++ le 8 64
    ++ le 8 120
    ++ le 4 0
    ++ le 2 64
    ++ le 2 56
    ++ le 2 1
    ++ le 2 64
    ++ le 2 1
    ++ le 2 0

abbrev segment_bytes : ℕ → List ℕ
segment_bytes size =
    le 4 1 ++ le 4 5 ++ le 8 184 ++ le 8 0x400000 ++ le 8 0 ++ le 8 size ++ le 8 size ++ le 8 4096

abbrev section_bytes : List ℕ
section_bytes =
    le 4 0
    ++ le 4 3
    ++ le 8 0
    ++ le 8 0
    ++ le 8 184
    ++ le 8 1
    ++ le 4 0
    ++ le 4 0
    ++ le 8 1
    ++ le 8 0

abbrev tiny_bytes : List ℕ
tiny_bytes = header_bytes ++ segment_bytes 1 ++ section_bytes ++ 0 ∷ []

-- what stands around a file
abbrev zeros_around : Around
zeros_around = record { byte = λ i. 0; section = λ i. read_shdr [] }

abbrev tiny : ElfData
tiny = record { buffer = some tiny_bytes; claimed = length tiny_bytes; around = zeros_around }

abbrev tiny_file : ElfFile
tiny_file = record {
  hdr = read_hdr header_bytes;
  phdr = read_phdr (segment_bytes 1) ∷ [];
  shdr = read_shdr section_bytes ∷ [];
  strtab = 0 ∷ [];
  image = tiny;
  load_offset = 0;
}

tiny-init : elf64_file_init tiny 0 ≡ ok (some tiny_file)
unfolding elf64_file_init elf64_read memcpy_from elf64_validate read_hdr read_shdr
tiny-init = refl

tiny_file-InRange : InRange tiny_file
unfolding read_hdr read_shdr
tiny_file-InRange = record {
  sections_low = omega arith;
  programs_low = omega arith;
  few_sections = omega arith;
  few_programs = omega arith;
  names_in = omega arith;
  strings_low = λ names e.
      let same : read_shdr section_bytes ≡ names = cc in
      subst (λ x. (x.sh_offset % 2 ^ 32 < 2 ^ 31) × (x.sh_size < 2 ^ 63)) same
        (omega arith, omega arith);
}

elf64_file_init-Accepted_example : Accepted tiny_bytes 0 tiny_file
elf64_file_init-Accepted_example =
    elf64_file_init-Accepted tiny tiny_bytes 0 tiny_file
      (record { there = refl; claims = refl; small = omega arith }) tiny_file-InRange tiny-init

elf64_read_lem_example : elf64_read tiny 183 10 ≡ ok (2, 0 ∷ 0 ∷ [])
elf64_read_lem_example =
    elf64_read_lem tiny tiny_bytes 183 10
      (record { there = refl; claims = refl; small = omega arith }) (omega arith) (omega arith)

aux-tiny :
    elf64_file_aux tiny_file
    ≡ record { at_phnum = 1; at_phent = 56; at_phdr = 0; at_entry = 0x401000 }
unfolding elf64_file_aux read_hdr read_phdr
aux-tiny = refl

-- frames in order, and the copies made, the last one first
abbrev log : Memory
log = record {
  State = ℕ × List (ℕ × List ℕ);
  alloc_page = λ s. ok (s.0, (s.0 + page_size, s.1));
  map_page = λ s virtual physical flags. ok s;
  copy = λ s to bytes. ok (s.0, (to, bytes) ∷ s.1);
}

abbrev zeros : ℕ → List ℕ
zeros zero = []
zeros (suc n) = 0 ∷ zeros n

length-zeros : (n : ℕ) → length (zeros n) ≡ n
length-zeros zero = refl
length-zeros (suc n) = ap suc (length-zeros n)

abbrev pages_file : ElfFile
pages_file = record {
  hdr = read_hdr [];
  phdr = [];
  shdr = [];
  strtab = [];
  image = record { buffer = some (zeros 5000); claimed = 5000; around = zeros_around };
  load_offset = 0;
}

abbrev pages : ElfPhdr
pages = record {
  p_type = 1;
  p_flags = 5;
  p_offset = 100;
  p_vaddr = 0x400000;
  p_paddr = 0;
  p_filesz = 4500;
  p_memsz = 4500;
  p_align = 4096;
}

load_segment-fill_example : load_segment rounding log 0 pages_file (0x5000, []) pages ≡ (
    map_part rounding log 0 (0x5000, []) 0x400000 0 4500 5 >>= λ r.
    fill_frames log 0 r.1 r.0 (take 4500 (drop 100 (zeros 5000))))
load_segment-fill_example =
    load_segment-fill rounding log 0 pages_file (zeros 5000)
      (record {
        there = refl;
        claims = sym (length-zeros 5000);
        small = omega (arith, length-zeros 5000);
      })
      pages refl (omega arith) (omega (arith, length-zeros 5000)) (0x5000, [])

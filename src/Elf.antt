-- ===== src/Elf.antt =====
-- kernel/core/elf.c and kernel/core/elf.h: the structures of an ELF file, and elf64_read.
-- A buffer is the list of its bytes. An `int` is its 32 bits and a `size_t` its 64. What stands in
-- memory outside of a buffer or an array is a parameter, which the code reads where it goes past
-- them. That memory runs out is not modelled.
pub mod Read
pub mod Validate
pub mod Init
pub mod Segments
pub mod Load
pub mod Copy
mod Tests
use rock.Base.{
  ℕ, zero, suc, ◌+◌, ◌-◌, ◌*◌, ◌%◌, ◌^◌, Bool, true, false, ◌&&◌, ◌||◌, not, Option, none, some,
  List, [], ◌∷◌, leb, ltb, ◌==◌, if◌then◌else◌, length, get_elem?, take, drop, Run, ok, fault,
  ◌>>=◌, add64, sign_extend, int_lt, minus_one_int,
}

-- the value of little-endian bytes
abbrev pub little_endian : List ℕ → ℕ
little_endian [] = 0
little_endian (b ∷ bs) = b + 256 * little_endian bs

-- the field of `width` bytes at offset `at` of a packed structure
abbrev pub field : List ℕ → ℕ → ℕ → ℕ
field bytes at width = little_endian (take width (drop at bytes))

abbrev pub elf_signature : ℕ
elf_signature = 0x464C457F

pub record Aux : Type 0 where
  pub at_phnum : ℕ
  pub at_phent : ℕ
  pub at_phdr : ℕ
  pub at_entry : ℕ

pub record ElfHdr : Type 0 where
  pub ident : List ℕ
  pub kind : ℕ
  pub machine : ℕ
  pub version : ℕ
  pub entry : ℕ
  pub phoff : ℕ
  pub shoff : ℕ
  pub flags : ℕ
  pub hdr_size : ℕ
  pub phdr_size : ℕ
  pub ph_num : ℕ
  pub shdr_size : ℕ
  pub sh_num : ℕ
  pub shstrndx : ℕ

pub record ElfPhdr : Type 0 where
  pub p_type : ℕ
  pub p_flags : ℕ
  pub p_offset : ℕ
  pub p_vaddr : ℕ
  pub p_paddr : ℕ
  pub p_filesz : ℕ
  pub p_memsz : ℕ
  pub p_align : ℕ

pub record ElfShdr : Type 0 where
  pub sh_name : ℕ
  pub sh_type : ℕ
  pub sh_flags : ℕ
  pub sh_addr : ℕ
  pub sh_offset : ℕ
  pub sh_size : ℕ
  pub sh_link : ℕ
  pub sh_info : ℕ
  pub sh_addr_align : ℕ
  pub sh_entsize : ℕ

-- `sizeof` of the three structures
abbrev pub hdr_bytes : ℕ
hdr_bytes = 64

abbrev pub phdr_bytes : ℕ
phdr_bytes = 56

abbrev pub shdr_bytes : ℕ
shdr_bytes = 64

unfoldable pub read_hdr : List ℕ → ElfHdr
read_hdr b = record {
  ident = take 16 b;
  kind = field b 16 2;
  machine = field b 18 2;
  version = field b 20 4;
  entry = field b 24 8;
  phoff = field b 32 8;
  shoff = field b 40 8;
  flags = field b 48 4;
  hdr_size = field b 52 2;
  phdr_size = field b 54 2;
  ph_num = field b 56 2;
  shdr_size = field b 58 2;
  sh_num = field b 60 2;
  shstrndx = field b 62 2;
}

unfoldable pub read_phdr : List ℕ → ElfPhdr
read_phdr b = record {
  p_type = field b 0 4;
  p_flags = field b 4 4;
  p_offset = field b 8 8;
  p_vaddr = field b 16 8;
  p_paddr = field b 24 8;
  p_filesz = field b 32 8;
  p_memsz = field b 40 8;
  p_align = field b 48 8;
}

unfoldable pub read_shdr : List ℕ → ElfShdr
read_shdr b = record {
  sh_name = field b 0 4;
  sh_type = field b 4 4;
  sh_flags = field b 8 8;
  sh_addr = field b 16 8;
  sh_offset = field b 24 8;
  sh_size = field b 32 8;
  sh_link = field b 40 4;
  sh_info = field b 44 4;
  sh_addr_align = field b 48 8;
  sh_entsize = field b 56 8;
}

-- what stands outside: the byte at an offset of the buffer, the section header at an index
pub record Around : Type 0 where
  pub byte : ℕ → ℕ
  pub section : ℕ → ElfShdr

-- `file->data`: the bytes at `buffer`, unless it is NULL, and the `length` that is claimed for them
pub record ElfData : Type 0 where
  pub buffer : Option (List ℕ)
  pub claimed : ℕ
  pub around : Around

-- `memcpy(to, buffer + offset, count)`: the bytes that are copied
unfoldable pub memcpy_from : List ℕ → (ℕ → ℕ) → ℕ → ℕ → List ℕ
memcpy_from buffer around offset zero = []
memcpy_from buffer around offset (suc count) =
    let byte = elim (get_elem? buffer offset) as (λ x. ℕ) [ none ↦ around offset | some b ↦ b ] in
    byte ∷ memcpy_from buffer around (add64 offset 1) count

-- the `int` of how much there is to read
abbrev pub data_to_read : ℕ → ℕ → ℕ → ℕ
data_to_read claimed offset cnt =
    if ltb (sign_extend claimed) (add64 (sign_extend offset) cnt)
    then (claimed + 2 ^ 32 - offset) % 2 ^ 32
    else cnt % 2 ^ 32

-- the value returned, with the bytes put into the buffer
unfoldable pub elf64_read : ElfData → ℕ → ℕ → Run (ℕ × List ℕ)
elf64_read image offset cnt = elim image.buffer [
  | none ↦ ok (minus_one_int, [])
  | some buffer ↦
      if int_lt image.claimed offset
      then ok (0, [])
      else ok (
        data_to_read image.claimed offset cnt,
        memcpy_from buffer image.around.byte (sign_extend offset)
            (sign_extend (data_to_read image.claimed offset cnt)),
      )
]

-- `ident[at]`
abbrev pub ident_is : ElfHdr → ℕ → ℕ → Bool
ident_is hdr at v = elim (get_elem? hdr.ident at) [ none ↦ false | some b ↦ b == v ]

unfoldable pub elf64_validate : ElfHdr → ℕ
elf64_validate hdr =
    if not (little_endian (take 4 hdr.ident) == elf_signature)
    then minus_one_int
    else if not (ident_is hdr 7 0) && not (ident_is hdr 7 3)
    then minus_one_int
    else if not (ident_is hdr 5 1)
    then minus_one_int
    else if not (ident_is hdr 4 2)
    then minus_one_int
    else if not (hdr.machine == 0x3e) && not (hdr.machine == 0)
    then minus_one_int
    else 0

-- `struct elf64_file`, once its tables are read
pub record ElfFile : Type 0 where
  pub hdr : ElfHdr
  pub phdr : List ElfPhdr
  pub shdr : List ElfShdr
  pub strtab : List ℕ
  pub image : ElfData
  pub load_offset : ℕ

-- an array of `count` structures of `size` bytes
abbrev pub array_of {ℓ} : {A : Type ℓ} → (List ℕ → A) → ℕ → ℕ → List ℕ → List A
array_of read size zero bytes = []
array_of read size (suc n) bytes = read (take size bytes) ∷ array_of read size n (drop size bytes)

-- a read that must give all of `cnt` bytes, or else the caller returns -1
abbrev pub read_all : ElfData → ℕ → ℕ → Run (Option (List ℕ))
read_all image offset cnt =
    elf64_read image offset cnt >>= λ r. ok (if sign_extend r.0 == cnt then some r.1 else none)

-- `file->shdr[index]`
abbrev pub section_of : Around → List ElfShdr → ℕ → ElfShdr
section_of around shdr index = elim (get_elem? shdr index) as (λ x. ElfShdr) [
  | none ↦ around.section index
  | some names ↦ names
]

-- `none` is -1. An `uint64_t` passed as an `int` loses its upper half.
unfoldable pub elf64_file_init : ElfData → ℕ → Run (Option ElfFile)
elf64_file_init image load_offset = do
  first ← read_all image 0 hdr_bytes
  elim first [
    | none ↦ ok none
    | some h ↦
        read_all image ((read_hdr h).shoff % 2 ^ 32) (shdr_bytes * (read_hdr h).sh_num)
        >>= λ sections. elim sections [
          | none ↦ ok none
          | some ss ↦
              if elf64_validate (read_hdr h) == minus_one_int
              then ok none
              else read_all image ((read_hdr h).phoff % 2 ^ 32) (phdr_bytes * (read_hdr h).ph_num)
                >>= λ programs. elim programs [
                  | none ↦ ok none
                  | some ps ↦
                      let shdr = array_of read_shdr shdr_bytes (read_hdr h).sh_num ss in
                      let names = section_of image.around shdr (read_hdr h).shstrndx in
                      read_all image (names.sh_offset % 2 ^ 32) names.sh_size >>= λ strings.
                      ok (elim strings [
                        | none ↦ none
                        | some strtab ↦ some (record {
                          hdr = read_hdr h;
                          phdr = array_of read_phdr phdr_bytes (read_hdr h).ph_num ps;
                          shdr = shdr;
                          strtab = strtab;
                          image = image;
                          load_offset = load_offset;
                        })
                      ])
                ]
        ]
  ]

-- the `at_phdr` that the loop leaves, from the one before it
abbrev pub at_phdr_loop : ℕ → List ElfPhdr → ℕ → ℕ
at_phdr_loop load_offset [] at = at
at_phdr_loop load_offset (p ∷ ps) at =
    at_phdr_loop load_offset ps (if p.p_type == 6 then add64 load_offset p.p_vaddr else at)

unfoldable pub elf64_file_aux : ElfFile → Aux
elf64_file_aux file = record {
  at_phnum = file.hdr.ph_num;
  at_phent = phdr_bytes;
  at_phdr = at_phdr_loop file.load_offset file.phdr 0;
  at_entry = add64 file.load_offset file.hdr.entry;
}

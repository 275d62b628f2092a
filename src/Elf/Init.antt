-- ===== src/Elf/Init.antt =====
-- What elf64_file_init accepts.
use rock.Base.{
  ℕ, zero, suc, ◌+◌, ◌-◌, ◌*◌, ◌%◌, ◌^◌, ◌≤◌, ◌<◌, ◌≡◌, refl, sym, ap, subst, ◌∙◌, true, false,
  Bool, Option, none, some, List, ==_iff, drop-drop, take-drop-take, ◌==◌, length, get_elem?, take,
  drop, ap, length-drop, ok, sign_extend, arith, Leaves, Leaves-ok, Leaves-if, Leaves-bind,
  Leaves-option, if◌then◌else◌, minus_one_int,
}
use rock.Elf.Read.{length-take, Honest, elf64_read_lem}
use rock.Elf.Validate.{Identified, validate-Identified}
use rock.Elf.{
  ElfData, ElfShdr, ElfFile, section_of, read_all, read_hdr, read_phdr, read_shdr, array_of,
  elf64_validate, elf64_file_init, hdr_bytes, phdr_bytes, shdr_bytes,
}

-- `r` is the `n` bytes at offset `at`, all of them within the buffer.
pub record Slice (b : List ℕ) (at n : ℕ) (r : List ℕ) : Type 0 where
  pub bytes : r ≡ take n (drop at b)
  pub whole : length r ≡ n

kept :
    {A : Type 0} (t : Bool) (r x : A) → (if t then some r else none) ≡ some x → (t ≡ true) × (r ≡ x)
kept true r x e = (refl, cc)
kept false r x e = absurd cc

sign_extend_lt : (x : ℕ) → x < 2 ^ 31 → sign_extend x ≡ x
sign_extend_lt x h = ground arith

module _ (f : ElfData) (b : List ℕ) (at cnt : ℕ) (honest : Honest f b) (low : at < 2 ^ 31)
    (few : cnt < 2 ^ 63) where
  pub read_all-Slice :
      Leaves (read_all f at cnt) (λ o. (r : List ℕ) → o ≡ some r → Slice b at cnt r)
  read_all-Slice = rw (elf64_read_lem f b at cnt honest low few) (
      Leaves-ok (λ r e.
        let k = kept _ (take cnt (drop at b)) r e in
        let small = honest.small in
        let le : length (take cnt (drop at b)) < 2 ^ 31 =
          omega (arith, length-take cnt (drop at b), length-drop at b) in
        let whole : sign_extend (length (take cnt (drop at b))) ≡ cnt = (==_iff _ _).0 k.0 in
        subst (Slice b at cnt) k.1
          (record { bytes = refl; whole = sym (sign_extend_lt _ le) ∙ whole })))

-- the `i`-th of `count` structures of `size` bytes in the slice
array_of-get_elem? :
    {A : Type 0} (read : List ℕ → A) (size count i : ℕ) (r : List ℕ)
    → i < count
    → get_elem? (array_of read size count r) i ≡ some (read (take size (drop (size * i) r)))
array_of-get_elem? read size zero i r h = absurd (omega arith)
array_of-get_elem? read size (suc count) zero r h =
    let start : size * 0 ≡ 0 = omega arith in rw start refl
array_of-get_elem? read size (suc count) (suc i) r h =
    let next : size + size * i ≡ size * suc i = grind arith in
    array_of-get_elem? read size count i (drop size r) (omega arith)
    ∙ rw (drop-drop (size * i) size r, next) refl

Slice-get_elem? :
    {A : Type 0} (read : List ℕ → A) (b : List ℕ) (at size count i : ℕ) {r : List ℕ}
    → Slice b at (size * count) r
    → i < count
    → get_elem? (array_of read size count r) i ≡ some (read (take size (drop (at + size * i) b)))
Slice-get_elem? read b at size count i {r} s h =
    let room : size * i + size ≤ size * count = grind arith in
    let part : take size (drop (size * i) r) ≡ take size (drop (at + size * i) b) = rw s.bytes (
      take-drop-take size (size * i) (size * count) (drop at b) room
      ∙ rw (drop-drop (size * i) at b) refl) in
    array_of-get_elem? read size count i r h ∙ rw part refl

-- The offsets of the tables and of the names are not negative as an `int`, the index of the names is
-- one of the table, and the counts and sizes are of 16 and of 63 bits.
pub record InRange (f : ElfFile) : Type 0 where
  pub sections_low : f.hdr.shoff % 2 ^ 32 < 2 ^ 31
  pub programs_low : f.hdr.phoff % 2 ^ 32 < 2 ^ 31
  pub few_sections : f.hdr.sh_num < 2 ^ 16
  pub few_programs : f.hdr.ph_num < 2 ^ 16
  pub names_in : f.hdr.shstrndx < f.hdr.sh_num
  pub strings_low :
      (names : ElfShdr)
      → get_elem? f.shdr f.hdr.shstrndx ≡ some names
      → (names.sh_offset % 2 ^ 32 < 2 ^ 31) × (names.sh_size < 2 ^ 63)

-- The file is what the bytes of the buffer say.
pub record Accepted (b : List ℕ) (load_offset : ℕ) (f : ElfFile) : Type 0 where
  pub header : f.hdr ≡ read_hdr (take hdr_bytes b)
  pub header_whole : hdr_bytes ≤ length b
  pub identified : Identified f.hdr
  pub programs :
      (i : ℕ)
      → i < f.hdr.ph_num
      → get_elem? f.phdr i
        ≡ some (read_phdr (take phdr_bytes (drop (f.hdr.phoff % 2 ^ 32 + phdr_bytes * i) b)))
  pub programs_whole : phdr_bytes * f.hdr.ph_num ≤ length b - f.hdr.phoff % 2 ^ 32
  pub sections :
      (i : ℕ)
      → i < f.hdr.sh_num
      → get_elem? f.shdr i
        ≡ some (read_shdr (take shdr_bytes (drop (f.hdr.shoff % 2 ^ 32 + shdr_bytes * i) b)))
  pub sections_whole : shdr_bytes * f.hdr.sh_num ≤ length b - f.hdr.shoff % 2 ^ 32
  pub names : ElfShdr
  pub names_there : get_elem? f.shdr f.hdr.shstrndx ≡ some names
  pub strings : Slice b (names.sh_offset % 2 ^ 32) names.sh_size f.strtab
  pub offset : f.load_offset ≡ load_offset

accepted :
    {A B : Type 0} (o : Option A) (g : A → B) (y : B)
    → elim o as (λ t. Option B) [ none ↦ none | some x ↦ some (g x) ] ≡ some y
    → (x : A) × (o ≡ some x) × (g x ≡ y)
accepted none g y e = absurd cc
accepted (some x) g y e = (x, refl, cc)

Slice-room : {b : List ℕ} {at n : ℕ} {r : List ℕ} → Slice b at n r → n ≤ length b - at
Slice-room {b} {at} {n} {r} s =
    let size : length (take n (drop at b)) ≡ n = rw (sym s.bytes) s.whole in
    omega (arith, size, length-take n (drop at b), length-drop at b)

module _ (image : ElfData) (b : List ℕ) (load_offset : ℕ) where
  abbrev file_of : List ℕ → List ℕ → List ℕ → List ℕ → ElfFile
  file_of h ss ps strtab = record {
    hdr = read_hdr h;
    phdr = array_of read_phdr phdr_bytes (read_hdr h).ph_num ps;
    shdr = array_of read_shdr shdr_bytes (read_hdr h).sh_num ss;
    strtab = strtab;
    image = image;
    load_offset = load_offset;
  }

  file_of-Accepted :
      {h ss ps strtab : List ℕ} (names : ElfShdr)
      → Slice b 0 hdr_bytes h
      → Slice b ((read_hdr h).shoff % 2 ^ 32) (shdr_bytes * (read_hdr h).sh_num) ss
      → (elf64_validate (read_hdr h) == minus_one_int) ≡ false
      → Slice b ((read_hdr h).phoff % 2 ^ 32) (phdr_bytes * (read_hdr h).ph_num) ps
      → get_elem? (array_of read_shdr shdr_bytes (read_hdr h).sh_num ss) (read_hdr h).shstrndx
        ≡ some names
      → Slice b (names.sh_offset % 2 ^ 32) names.sh_size strtab
      → Accepted b load_offset (file_of h ss ps strtab)
  file_of-Accepted {h} names head sections valid programs at strings = record {
    header = ap read_hdr head.bytes;
    header_whole = omega (arith, Slice-room head);
    identified = validate-Identified (read_hdr h) valid;
    programs = λ i l. Slice-get_elem? read_phdr b _ phdr_bytes _ i programs l;
    programs_whole = Slice-room programs;
    sections = λ i l. Slice-get_elem? read_shdr b _ shdr_bytes _ i sections l;
    sections_whole = Slice-room sections;
    names = names;
    names_there = at;
    strings = strings;
    offset = refl;
  }

  names_of :
      (r : List ℕ) (count i : ℕ)
      → i < count
      → get_elem? (array_of read_shdr shdr_bytes count r) i
        ≡ some (section_of image.around (array_of read_shdr shdr_bytes count r) i)
  names_of r count i h =
      let at = array_of-get_elem? read_shdr shdr_bytes count i r h in at ∙ rw (section_of, at) refl

  init-Accepted :
      Honest image b
      → Leaves
          (elf64_file_init image load_offset)
          (λ o. (f : ElfFile) → o ≡ some f → InRange f → Accepted b load_offset f)
  unfolding elf64_file_init
  init-Accepted honest =
      let slice : (at cnt : ℕ) (o : Option (List ℕ)) (r : List ℕ)
          → read_all image (at % 2 ^ 32) cnt ≡ ok o
          → o ≡ some r
          → at % 2 ^ 32 < 2 ^ 31
          → cnt < 2 ^ 63
          → Slice b (at % 2 ^ 32) cnt r =
        λ at cnt o r run e low few.
          (read_all-Slice image b (at % 2 ^ 32) cnt honest low few).at o run r e in
      Leaves-bind (read_all image 0 hdr_bytes) _ λ first e0.
        Leaves-option first _ _ (λ n. Leaves-ok (λ f e sane. absurd cc))
          λ h eh.
            Leaves-bind
              (read_all image ((read_hdr h).shoff % 2 ^ 32) (shdr_bytes * (read_hdr h).sh_num)) _
              λ sections e1.
                Leaves-option sections _ _ (λ n. Leaves-ok (λ f e sane. absurd cc))
                  λ ss es.
                    Leaves-if (elf64_validate (read_hdr h) == minus_one_int) _ _
                      (λ n. Leaves-ok (λ f e sane. absurd cc))
                      λ valid.
                        Leaves-bind
                          (read_all image ((read_hdr h).phoff % 2 ^ 32)
                            (phdr_bytes * (read_hdr h).ph_num))
                          _
                          λ programs e2.
                            Leaves-option programs _ _ (λ n. Leaves-ok (λ f e sane. absurd cc))
                              λ ps ep.
                                let names =
                                  section_of image.around
                                    (array_of read_shdr shdr_bytes (read_hdr h).sh_num ss)
                                    (read_hdr h).shstrndx in
                                Leaves-bind
                                  (read_all image (names.sh_offset % 2 ^ 32) names.sh_size) _
                                  λ strings e3. Leaves-ok (λ f e sane.
                                    let (strtab, es', made) =
                                      accepted strings (file_of h ss ps) f e in
                                    let ranged : InRange (file_of h ss ps strtab) =
                                      subst InRange (sym made) sane in
                                    let there =
                                      names_of ss (read_hdr h).sh_num (read_hdr h).shstrndx
                                        ranged.names_in in
                                    let strings_range = ranged.strings_low names there in
                                    let few_s = ranged.few_sections in
                                    let few_p = ranged.few_programs in
                                    subst (Accepted b load_offset) made (
                                      file_of-Accepted names
                                        (slice 0 _ first h e0 eh (omega arith) (omega arith))
                                        (slice _ _ sections ss e1 es ranged.sections_low
                                          (omega (arith, few_s)))
                                        valid
                                        (slice _ _ programs ps e2 ep ranged.programs_low
                                          (omega (arith, few_p)))
                                        there
                                        (slice _ _ strings strtab e3 es' strings_range.0
                                          strings_range.1)))

-- If elf64_file_init accepts a file whose length is that of its buffer, less than 2^31 bytes, and
-- the offsets that the header and the header of the names give are not negative as an `int`, the
-- index of the names is one of the table, the counts are of 16 bits and the size of the names is
-- less than 2^63: the header identifies a file for this system, the header, the tables and the
-- names are whole and within the buffer, and each entry of a table is decoded from its bytes at the
-- offset that the header gives, taken modulo 2^32.
pub elf64_file_init-Accepted :
    (image : ElfData) (b : List ℕ) (load_offset : ℕ) (f : ElfFile)
    → Honest image b
    → InRange f
    → elf64_file_init image load_offset ≡ ok (some f)
    → Accepted b load_offset f
elf64_file_init-Accepted image b load_offset f honest sane e =
    (init-Accepted image b load_offset honest).at (some f) e f refl sane

-- ===== src/Elf/Copy.antt =====
-- The data of a segment that starts on a page.
use rock.Base.{
  ap, ℕ, suc, ◌+◌, ◌-◌, ◌*◌, ◌%◌, ◌^◌, ◌≤◌, ◌<◌, ◌≡◌, refl, sym, ◌∙◌, inl, inr, false, Bool-cases,
  List, [], ◌∷◌, ltb, ◌==◌, length, take, drop, drop-drop, take-drop-take, length-drop, ok, Run,
  ◌>>=◌, bind-ext, arith, if◌then◌else◌, min, add64, sub64, page_size,
}
use rock.Base.Bits.Page.{bit_and-offset}
use rock.Fayt.{Rounding}
use rock.Elf.{ElfPhdr, ElfFile}
use rock.Elf.Read.{Honest, elf64_read_lem, length-take, take-min}
use rock.Elf.Load.{page_cnt-aligned, map_pages-length}
use rock.Elf.Segments.{
  load_segment, map_part, page_cnt, page_flags, Memory, misalignment_of, page_bytes, copy_pages,
}

-- the pages of a segment filled with its data, page by page
pub fill_frames : (memory : Memory) → ℕ → memory.State → List ℕ → List ℕ → Run memory.State
fill_frames memory high_vma s [] bytes = ok s
fill_frames memory high_vma s (frame ∷ frames) bytes = do
  s' ← memory.copy s (add64 frame high_vma) (take page_size bytes)
  fill_frames memory high_vma s' frames (drop page_size bytes)

mod_once : (x d : ℕ) → d ≤ x → x < d + d → x % d ≡ x - d
mod_once x d h l = grind arith

module _ (rounding : Rounding) (memory : Memory) (high_vma : ℕ) (file : ElfFile) (b : List ℕ)
    (honest : Honest file.image b) (phdr : ElfPhdr) (aligned : phdr.p_vaddr % page_size ≡ 0)
    (large : page_size ≤ phdr.p_filesz) (inside : phdr.p_offset + phdr.p_filesz ≤ length b) where
  abbrev data_from : ℕ → List ℕ
  data_from j = drop (j * page_size) (take phdr.p_filesz (drop phdr.p_offset b))

  begun :
      (j n : ℕ)
      → (j + suc n) * page_size < phdr.p_filesz + page_size
      → j * page_size < phdr.p_filesz
  begun j n h = omega arith

  count_of :
      (j : ℕ)
      → j * page_size < phdr.p_filesz
      → page_bytes rounding memory high_vma phdr j
        ≡ ok (min page_size (phdr.p_filesz - j * page_size))
  unfolding page_bytes
  count_of j h = elim (Bool-cases (ltb phdr.p_filesz (page_size + j * page_size))) [
    | inl last ↦
        let later : (j == 0) ≡ false = ground (arith, last) in
        let once : phdr.p_filesz % (j * page_size) ≡ phdr.p_filesz - j * page_size =
          mod_once phdr.p_filesz (j * page_size) (omega arith) (ground (arith, last, later)) in
        let least : min page_size (phdr.p_filesz - j * page_size) ≡ phdr.p_filesz - j * page_size =
          ground (arith, last) in
        rw (page_bytes, last, later, once, least) refl
    | inr full ↦
        let least : min page_size (phdr.p_filesz - j * page_size) ≡ page_size =
          ground (arith, full) in
        rw (page_bytes, full, least) refl
  ]

  no_skip : (j : ℕ) → (if j == 0 then misalignment_of phdr.p_vaddr else 0) ≡ 0
  no_skip j =
      let none : misalignment_of phdr.p_vaddr ≡ 0 = bit_and-offset phdr.p_vaddr ∙ aligned in
      elim (Bool-cases (j == 0)) [ inl first ↦ rw first none | inr later ↦ rw later refl ]

  page_data :
      (j : ℕ)
      → j * page_size < phdr.p_filesz
      → take
          (min page_size (phdr.p_filesz - j * page_size))
          (drop (phdr.p_offset + j * page_size) b)
        ≡ take page_size (data_from j)
  page_data j h =
      let size : length (data_from j) ≡ phdr.p_filesz - j * page_size = omega (
        arith,
        length-drop (j * page_size) (take phdr.p_filesz (drop phdr.p_offset b)),
        length-take phdr.p_filesz (drop phdr.p_offset b),
        length-drop phdr.p_offset b,
      ) in
      let c = min page_size (phdr.p_filesz - j * page_size) in
      let short : take page_size (data_from j) ≡ take c (data_from j) =
        rw (sym size) (sym (take-min page_size (data_from j))) in
      rw (sym (drop-drop (j * page_size) phdr.p_offset b)) (
        sym (take-drop-take c (j * page_size) phdr.p_filesz (drop phdr.p_offset b) (omega arith))
        ∙ sym short)

  copy_pages-from :
      (s : memory.State) (frames : List ℕ) (j : ℕ)
      → (j + length frames) * page_size < phdr.p_filesz + page_size
      → copy_pages rounding memory high_vma file s phdr frames j
        ≡ fill_frames memory high_vma s frames (data_from j)
  unfolding copy_pages fill_frames
  copy_pages-from s [] j h = refl
  copy_pages-from s (frame ∷ frames) j h =
      let low = begun j (length frames) h in
      let c = min page_size (phdr.p_filesz - j * page_size) in
      let at : add64 phdr.p_offset (j * page_size) % 2 ^ 32 ≡ phdr.p_offset + j * page_size =
        omega (arith, honest.small, inside, low) in
      let whole : sub64 c 0 ≡ c = omega arith in
      let high : add64 (add64 frame high_vma) 0 ≡ add64 frame high_vma = omega arith in
      let read =
        elf64_read_lem file.image b (phdr.p_offset + j * page_size) c honest
          (omega (arith, honest.small, inside, low)) (omega arith) in
      let following : j * page_size + page_size ≡ (j + 1) * page_size = omega arith in
      rw (count_of j low, at, no_skip j, whole, high, read, page_data j low)
        (bind-ext (memory.copy s (add64 frame high_vma) (take page_size (data_from j)))
          (λ s'. copy_pages rounding memory high_vma file s' phdr frames (j + 1))
          (λ s'. fill_frames memory high_vma s' frames (drop page_size (data_from j)))
          λ s' e.
            copy_pages-from s' frames (j + 1) (omega (arith, h))
            ∙ rw
                (
                  drop-drop page_size (j * page_size) (take phdr.p_filesz (drop phdr.p_offset b)),
                  following,
                )
                refl)

  -- A segment that starts on a page, with at least a page of data, all of it within the buffer, is
  -- loaded by mapping its pages and filling the frames mapped with the data, a page each, in order.
  pub load_segment-fill :
      (s : memory.State)
      → load_segment rounding memory high_vma file s phdr ≡ (
          map_part rounding memory high_vma s phdr.p_vaddr file.load_offset phdr.p_filesz
            phdr.p_flags
          >>= λ r. fill_frames memory high_vma r.1 r.0 (take phdr.p_filesz (drop phdr.p_offset b)))
  unfolding load_segment
  load_segment-fill s =
      let none : misalignment_of phdr.p_vaddr ≡ 0 = bit_and-offset phdr.p_vaddr ∙ aligned in
      let pages = page_cnt-aligned rounding phdr.p_filesz (omega (arith, honest.small, inside)) in
      let some_page : (page_cnt rounding (misalignment_of phdr.p_vaddr) phdr.p_filesz == 0)
          ≡ false =
        rw none (ground (arith, pages, large)) in
      rw (load_segment, some_page)
        (bind-ext
          (map_part rounding memory high_vma s phdr.p_vaddr file.load_offset phdr.p_filesz
            phdr.p_flags)
          (λ r. copy_pages rounding memory high_vma file r.1 phdr r.0 0)
          (λ r. fill_frames memory high_vma r.1 r.0 (take phdr.p_filesz (drop phdr.p_offset b)))
          λ r e.
            let frames =
              (map_pages-length rounding memory high_vma file s
                  (sub64 (add64 phdr.p_vaddr file.load_offset) (misalignment_of phdr.p_vaddr))
                  (page_flags phdr.p_flags)
                  (page_cnt rounding (misalignment_of phdr.p_vaddr) phdr.p_filesz) 0).at
                r e in
            let count : page_cnt rounding (misalignment_of phdr.p_vaddr) phdr.p_filesz
                ≡ page_cnt rounding 0 phdr.p_filesz =
              ap (λ m. page_cnt rounding m phdr.p_filesz) none in
            copy_pages-from r.1 r.0 0 (omega (arith, frames, count, pages)))

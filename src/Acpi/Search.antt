-- ===== src/Acpi/Search.antt =====
-- kernel/acpi/rsdp.c: what the search finds, and where it does not stop.
use rock.Base.{
  ℕ, zero, suc, ◌+◌, ◌*◌, ◌-◌, ◌^◌, ◌<◌, ◌≤◌, ◌≡◌, refl, ap, ◌∙◌, true, false, Option, none, some,
  List, ok, fault, add64, sub64, arith,
}
use rock.Acpi.{acpi_hdr_size, Sdt, AcpiMemory, find_in, find_table, acpi_find_sdt}

module _ (memory : AcpiMemory) (high_vma : ℕ) where
  -- the pointer at the index is that of a header with another signature
  pub record Differs (sdt : Sdt) (signature : List ℕ) (i : ℕ) : Type 0 where
    pub bytes : List ℕ
    pub mapped : memory.signature_at (add64 (sdt.acpi_ptr i) high_vma) ≡ some bytes
    pub differs : memory.same_signature bytes signature ≡ false

  find_in-Differs :
      (sdt : Sdt) (signature : List ℕ) (left i k : ℕ)
      → ((j : ℕ) → i ≤ j → j < i + k → Differs sdt signature j)
      → find_in memory high_vma sdt signature (k + left) i
        ≡ find_in memory high_vma sdt signature left (i + k)
  unfolding find_in
  find_in-Differs sdt signature left i zero others =
      let here : i ≡ i + 0 = omega arith in
      let rounds : 0 + left ≡ left = omega arith in
      rw rounds (ap (find_in memory high_vma sdt signature left) here)
  find_in-Differs sdt signature left i (suc k) others =
      let d = others i (omega arith) (omega arith) in
      let mapped = d.mapped in
      let differs = d.differs in
      let rounds : suc k + left ≡ suc (k + left) = omega arith in
      let next : i + 1 + k ≡ i + suc k = omega arith in
      let rest =
        find_in-Differs sdt signature left (i + 1) k
          (λ j lo hi. others j (omega (arith, lo)) (omega (arith, hi))) in
      rw rounds (
        rw (find_in, mapped, differs) (rest ∙ ap (find_in memory high_vma sdt signature left) next))

  -- the search comes to the `k`-th pointer where those before it differ
  comes_to :
      (sdt : Sdt) (signature : List ℕ) (k : ℕ)
      → acpi_hdr_size + k < sdt.length
      → sdt.length < 2 ^ 32
      → ((j : ℕ) → j < k → Differs sdt signature j)
      → find_table memory high_vma (some sdt) signature
        ≡ find_in memory high_vma sdt signature (suc (sdt.length - acpi_hdr_size - k - 1)) k
  comes_to sdt signature k h w others =
      let rounds : sub64 sdt.length acpi_hdr_size ≡ k + suc (sdt.length - acpi_hdr_size - k - 1) =
        omega (arith, h, w) in
      let start : 0 + k ≡ k = omega arith in
      rw rounds (
        find_in-Differs sdt signature (suc (sdt.length - acpi_hdr_size - k - 1)) 0 k
          (λ j lo hi. others j (omega (arith, hi)))
        ∙ ap (find_in memory high_vma sdt signature (suc (sdt.length - acpi_hdr_size - k - 1)))
            start)

  -- Where the headers that stand before it in the XSDT are mapped and have other signatures,
  -- acpi_find_sdt gives the address of the header of the XSDT that has the signature.
  pub acpi_find_sdt-first :
      (sdt : Sdt) (rsdt : Option Sdt) (signature bytes : List ℕ) (k : ℕ)
      → acpi_hdr_size + k < sdt.length
      → sdt.length < 2 ^ 32
      → ((j : ℕ) → j < k → Differs sdt signature j)
      → memory.signature_at (add64 (sdt.acpi_ptr k) high_vma) ≡ some bytes
      → memory.same_signature bytes signature ≡ true
      → acpi_find_sdt memory high_vma (some sdt) rsdt signature
        ≡ ok (some (add64 (sdt.acpi_ptr k) high_vma))
  unfolding acpi_find_sdt find_in
  acpi_find_sdt-first sdt rsdt signature bytes k h w others mapped same =
      let found : find_in memory high_vma sdt signature (suc (sdt.length - acpi_hdr_size - k - 1)) k
          ≡ ok (some (add64 (sdt.acpi_ptr k) high_vma)) =
        rw (find_in, mapped, same) refl in
      rw (acpi_find_sdt, comes_to sdt signature k h w others ∙ found) refl

  -- A search of an XSDT of `n` pointers, none of which has the signature, goes on behind the table:
  -- where the word there is no address of mapped memory, it ends in a fault and not with NULL.
  pub acpi_find_sdt-past_end :
      (sdt : Sdt) (rsdt : Option Sdt) (signature : List ℕ) (n : ℕ)
      → 0 < n
      → sdt.length ≡ acpi_hdr_size + 8 * n
      → sdt.length < 2 ^ 32
      → ((j : ℕ) → j < n → Differs sdt signature j)
      → memory.signature_at (add64 (sdt.acpi_ptr n) high_vma) ≡ none
      → acpi_find_sdt memory high_vma (some sdt) rsdt signature ≡ fault
  unfolding acpi_find_sdt find_in
  acpi_find_sdt-past_end sdt rsdt signature n h len w others unmapped =
      let fails : find_in memory high_vma sdt signature (suc (sdt.length - acpi_hdr_size - n - 1)) n
          ≡ fault =
        rw (find_in, unmapped) refl in
      rw (acpi_find_sdt, comes_to sdt signature n (omega (arith, h, len)) w others ∙ fails) refl

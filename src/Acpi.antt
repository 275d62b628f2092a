-- ===== src/Acpi.antt =====
-- kernel/acpi/rsdp.c and rsdp.h: the search of the tables of ACPI.
-- What stands at an address is a parameter: the first four bytes of a header, or nothing where no
-- memory is mapped. `strncmp` of four bytes, of fayt/string.h, is a parameter as well.
pub mod Search
mod Tests
use rock.Base.{
  ℕ, zero, suc, ◌+◌, Bool, Option, none, some, List, if◌then◌else◌, Run, ok, fault, ◌>>=◌, add64,
  sub64,
}

-- `sizeof(struct acpi_hdr)`
abbrev pub acpi_hdr_size : ℕ
acpi_hdr_size = 36

-- an RSDT or an XSDT: the length in its header, and what stands at each index of `acpi_ptr`, in the
-- table or behind it
pub record Sdt : Type 0 where
  pub length : ℕ
  pub acpi_ptr : ℕ → ℕ

pub record AcpiMemory : Type 0 where
  pub signature_at : ℕ → Option (List ℕ)
  pub same_signature : List ℕ → List ℕ → Bool

module _ (memory : AcpiMemory) (high_vma : ℕ) where
  open memory use {signature_at, same_signature}

  -- the loop over the pointers, of which `left` are left
  pub find_in : Sdt → List ℕ → ℕ → ℕ → Run (Option ℕ)
  find_in sdt signature zero i = ok none
  find_in sdt signature (suc left) i =
      let later = find_in sdt signature left (i + 1) in
      let address = add64 (sdt.acpi_ptr i) high_vma in
      elim (signature_at address) [
        | none ↦ fault
        | some bytes ↦ if same_signature bytes signature then ok (some address) else later
      ]

  -- the loop has a round for each byte behind the header
  abbrev pub find_table : Option Sdt → List ℕ → Run (Option ℕ)
  find_table none signature = ok none
  find_table (some sdt) signature = find_in sdt signature (sub64 sdt.length acpi_hdr_size) 0

  pub acpi_find_sdt : Option Sdt → Option Sdt → List ℕ → Run (Option ℕ)
  acpi_find_sdt xsdt rsdt signature = find_table xsdt signature >>= λ found. elim found [
    | some address ↦ ok (some address)
    | none ↦ find_table rsdt signature
  ]

-- ===== src/Acpi/Tests.antt =====
-- kernel/acpi/rsdp.c.
use rock.Base.{
  ℕ, ◌<◌, ◌≡◌, refl, false, Option, none, some, List, [], ◌∷◌, ◌==◌, if◌then◌else◌, ok, fault,
  arith, suc, zero,
}
use rock.Fayt.Models.{same_bytes}
use rock.Acpi.{Sdt, AcpiMemory, acpi_find_sdt}
use rock.Acpi.Search.{Differs, acpi_find_sdt-first, acpi_find_sdt-past_end}

-- "FACP" at 0x1000 and "APIC" at 0x2000
abbrev facp : List ℕ
facp = 70 ∷ 65 ∷ 67 ∷ 80 ∷ []

abbrev apic : List ℕ
apic = 65 ∷ 80 ∷ 73 ∷ 67 ∷ []

abbrev signatures : ℕ → Option (List ℕ)
signatures a = if a == 0x1000 then some facp else if a == 0x2000 then some apic else none

abbrev memory : AcpiMemory
memory = record { signature_at = signatures; same_signature = same_bytes }

abbrev pointers : ℕ → ℕ
pointers zero = 0x1000
pointers (suc zero) = 0x2000
pointers (suc (suc n)) = 0x3000

abbrev xsdt : Sdt
xsdt = record { length = 52; acpi_ptr = pointers }

abbrev hpet : List ℕ
hpet = 72 ∷ 80 ∷ 69 ∷ 84 ∷ []

first_Differs :
    (signature : List ℕ)
    → same_bytes facp signature ≡ false
    → (j : ℕ) → j < 1
    → Differs memory 0 xsdt signature j
first_Differs signature ne zero h = record { bytes = facp; mapped = refl; differs = ne }
first_Differs signature ne (suc j) h = absurd (omega (arith, h))

both_Differ : (j : ℕ) → j < 2 → Differs memory 0 xsdt hpet j
both_Differ zero h = record { bytes = facp; mapped = refl; differs = refl }
both_Differ (suc zero) h = record { bytes = apic; mapped = refl; differs = refl }
both_Differ (suc (suc j)) h = absurd (omega (arith, h))

acpi_find_sdt-first_example : acpi_find_sdt memory 0 (some xsdt) none apic ≡ ok (some 0x2000)
acpi_find_sdt-first_example =
    acpi_find_sdt-first memory 0 xsdt none apic apic 1 (omega arith) (omega arith)
      (first_Differs apic refl) refl refl

acpi_find_sdt-past_end_example : acpi_find_sdt memory 0 (some xsdt) none hpet ≡ fault
acpi_find_sdt-past_end_example =
    acpi_find_sdt-past_end memory 0 xsdt none hpet 2 (omega arith) refl (omega arith) both_Differ
      refl

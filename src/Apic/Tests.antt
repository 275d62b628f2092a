-- ===== src/Apic/Tests.antt =====
-- kernel/arch/x86/apic.c.
use rock.Base.{◌+◌, ◌≡◌, List, [], ◌∷◌, ok, length, arith}
use rock.Apic.{madt_hdr_size, no_entries, parse_madt}
use rock.Apic.Entries.{Entry, ent0, ent1, ent2, other, encode_all, AllFit, add_all}
use rock.Apic.Walk.{parse_madt-encode_all}

-- two cores, an I/O APIC, an entry that is passed over and an override
abbrev entries : List Entry
entries =
    ent0 (record { acpi_id = 0; apic_id = 0; flags = 1 })
    ∷ ent0 (record { acpi_id = 1; apic_id = 1; flags = 1 })
    ∷ ent1 (record { ioapic_id = 2; reserved = 0; ioapic_addr = 0xfec00000; gsi_base = 0 })
    ∷ other 9 (0 ∷ 0 ∷ 7 ∷ [])
    ∷ ent2 (record { bus_src = 0; irq_src = 0; gsi = 2; flags = 0 })
    ∷ []

entries-AllFit : AllFit entries
entries-AllFit = (
  (omega arith, omega arith, omega arith),
  (
    (omega arith, omega arith, omega arith),
    (
      (omega arith, omega arith, omega arith, omega arith),
      (
        (omega arith, omega arith, omega arith),
        ((omega arith, omega arith, omega arith, omega arith), tt),
      ),
    ),
  ),
)

parse_madt-encode_all_example :
    parse_madt (length entries) (encode_all entries) (madt_hdr_size + length (encode_all entries))
    ≡ ok (add_all entries no_entries)
parse_madt-encode_all_example = parse_madt-encode_all entries entries-AllFit (omega arith)

-- ===== src/Apic.antt =====
-- kernel/acpi/madt.h and kernel/arch/x86/apic.c: the walk over the entries of the MADT.
-- The bytes from the end of the header on are a list; a read past it is a fault. A length of the
-- header that is less than that of the header itself wraps, as it does in the code.
pub mod Bytes
pub mod Entries
pub mod Walk
mod Tests
use rock.Base.{
  ℕ, zero, suc, ◌+◌, ◌*◌, ◌-◌, ◌/◌, ◌%◌, ◌^◌, bit_and, bit_or, Bool, true, false, ◌&&◌, not, Option,
  none, some, List, [], ◌∷◌, ◌++◌, ltb, leb, ◌==◌, if◌then◌else◌, get_elem?, drop, take, length,
  Run, ok, fault, out_of_fuel, ◌>>=◌, add64, sub64,
}

-- the bytes of an integer, the lowest first
abbrev pub number_of : List ℕ → ℕ
number_of [] = 0
number_of (b ∷ bs) = b + 256 * number_of bs

-- `n` bytes from `i` on
abbrev pub read : List ℕ → ℕ → ℕ → Run ℕ
read entries i n =
    if leb (i + n) (length entries) then ok (number_of (take n (drop i entries))) else fault

pub record MadtEnt0 : Type 0 where
  pub acpi_id : ℕ
  pub apic_id : ℕ
  pub flags : ℕ

pub record MadtEnt1 : Type 0 where
  pub ioapic_id : ℕ
  pub reserved : ℕ
  pub ioapic_addr : ℕ
  pub gsi_base : ℕ

pub record MadtEnt2 : Type 0 where
  pub bus_src : ℕ
  pub irq_src : ℕ
  pub gsi : ℕ
  pub flags : ℕ

pub record MadtEnt4 : Type 0 where
  pub acpi_id : ℕ
  pub flags : ℕ
  pub lint : ℕ

pub record MadtEnt5 : Type 0 where
  pub reserved : ℕ
  pub lapic_override : ℕ

-- the five lists
pub record MadtLists : Type 0 where
  pub ent0 : List MadtEnt0
  pub ent1 : List MadtEnt1
  pub ent2 : List MadtEnt2
  pub ent4 : List MadtEnt4
  pub ent5 : List MadtEnt5

abbrev pub read_ent0 : List ℕ → ℕ → Run MadtEnt0
read_ent0 entries i = do
  acpi_id ← read entries i 1
  apic_id ← read entries (i + 1) 1
  flags ← read entries (i + 2) 4
  ok (record { acpi_id = acpi_id; apic_id = apic_id; flags = flags })

abbrev pub read_ent1 : List ℕ → ℕ → Run MadtEnt1
read_ent1 entries i = do
  ioapic_id ← read entries i 1
  reserved ← read entries (i + 1) 1
  ioapic_addr ← read entries (i + 2) 4
  gsi_base ← read entries (i + 6) 4
  ok (record {
    ioapic_id = ioapic_id;
    reserved = reserved;
    ioapic_addr = ioapic_addr;
    gsi_base = gsi_base;
  })

abbrev pub read_ent2 : List ℕ → ℕ → Run MadtEnt2
read_ent2 entries i = do
  bus_src ← read entries i 1
  irq_src ← read entries (i + 1) 1
  gsi ← read entries (i + 2) 4
  flags ← read entries (i + 6) 2
  ok (record { bus_src = bus_src; irq_src = irq_src; gsi = gsi; flags = flags })

abbrev pub read_ent4 : List ℕ → ℕ → Run MadtEnt4
read_ent4 entries i = do
  acpi_id ← read entries i 1
  flags ← read entries (i + 1) 2
  lint ← read entries (i + 3) 1
  ok (record { acpi_id = acpi_id; flags = flags; lint = lint })

abbrev pub read_ent5 : List ℕ → ℕ → Run MadtEnt5
read_ent5 entries i = do
  reserved ← read entries i 2
  lapic_override ← read entries (i + 2) 1
  ok (record { reserved = reserved; lapic_override = lapic_override })

-- the switch over the type of an entry
pub push_entry : List ℕ → ℕ → ℕ → MadtLists → Run MadtLists
push_entry entries kind i l =
    if kind == 0
    then (read_ent0 entries i >>= λ e. ok (record l { ent0 = l.ent0 ++ e ∷ [] }))
    else if kind == 1
    then (read_ent1 entries i >>= λ e. ok (record l { ent1 = l.ent1 ++ e ∷ [] }))
    else if kind == 2
    then (read_ent2 entries i >>= λ e. ok (record l { ent2 = l.ent2 ++ e ∷ [] }))
    else if kind == 4
    then (read_ent4 entries i >>= λ e. ok (record l { ent4 = l.ent4 ++ e ∷ [] }))
    else if kind == 5
    then (read_ent5 entries i >>= λ e. ok (record l { ent5 = l.ent5 ++ e ∷ [] }))
    else ok l

-- The loop over the entries, up to `limit`: `i` goes up by 2, by the size less 3, and by 1.
pub walk_madt : ℕ → List ℕ → ℕ → ℕ → MadtLists → Run MadtLists
walk_madt zero entries limit i l = if ltb i limit then out_of_fuel else ok l
walk_madt (suc fuel) entries limit i l = elim (ltb i limit) [
  | false ↦ ok l
  | true ↦ do
    kind ← read entries i 1
    size ← read entries (add64 i 1) 1
    l' ← push_entry entries kind (add64 i 2) l
    walk_madt fuel entries limit (add64 (sub64 (add64 (add64 i 2) size) 3) 1) l'
]

-- `sizeof(struct madt_hdr)`
abbrev pub madt_hdr_size : ℕ
madt_hdr_size = 44

abbrev pub no_entries : MadtLists
no_entries = record { ent0 = []; ent1 = []; ent2 = []; ent4 = []; ent5 = [] }

-- apic_init up to its lists: `hdr_length` is the length in the table's header
pub parse_madt : ℕ → List ℕ → ℕ → Run MadtLists
parse_madt fuel entries hdr_length =
    walk_madt fuel entries (sub64 hdr_length madt_hdr_size) 0 no_entries

-- ===== src/Gdt/Tests.antt =====
-- kernel/arch/x86/gdt.c.
use rock.Base.{ℕ, ◌+◌, ◌≡◌, true, ok, Leaves, arith}
use rock.Gdt.{GdtMemory, gdt_init, tss_bytes}
use rock.Gdt.Selectors.{port_open, gdt_init-port_open}

-- the next free address
abbrev memory : GdtMemory
memory = record {
  State = ℕ;
  alloc = λ s n. (s, s + n);
  pmm_alloc = λ s n align. ok (s, s + 0x4000);
}

gdt_init-port_open_example :
    Leaves
      (gdt_init memory 0x1000000 0x2000)
      (λ r. port_open (tss_bytes r.0.tss) r.0.gdt.tss_descriptor.length 3 ≡ true)
gdt_init-port_open_example = gdt_init-port_open memory 0x1000000 0x2000 3 (omega arith)

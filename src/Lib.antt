-- ===== src/Lib.antt =====
-- Verification of the dufay kernel.
--
-- The kernel hands out physical frames (kernel/core/physical.c), builds the page tables that map
-- them (kernel/arch/x86/paging.c), loads servers from ELF files (kernel/core/elf.c, server.c) and
-- lets them talk by notifications, which the scheduler (scheduler.c) delivers, and by portals
-- (portal.c), whose pages are mapped on page faults. A page table takes the frames for its inner
-- tables from the frame allocator, one page at a time.
--
-- The files and what they model:
--   Base       names of the libraries, C arrays as lists, 64-bit words, bits, outcomes of a run
--   Fayt       kernel/fayt, whose sources are not in the repository: bitmaps, rounding, memset64
--              and hash tables as records of operations with their documented laws (Fayt/Models runs them)
--   Physical   kernel/core/physical.c: a module is a region with its bitmap and its hint last_free;
--              pmm_module_alloc, pmm_module_free, pmm_alloc and pmm_free keep their names but for
--              the prefix; the children hold the search for a run, allocation, freeing and the list,
--              and Start the regions and places of pmm_init
--   Paging     kernel/arch/x86/paging.c: memory is words at addresses, a page table is a root, a
--              lock and the allocator behind it; the functions keep their names (Level5 has those
--              of five levels). Source is the interface to the allocator. Walk is what the processor
--              does with the tables, and the invariant that they form a tree; Map, Unmap and Lookup
--              give the code one level at a time, and FourLevel, FiveLevel, Unmapping and Lookup
--              carry that to the code of all levels; Kernel fills Source with the frame allocator
--   Syscall    kernel/core/syscall.c: the table, the checks and the result of syscall_handler; what a
--              handler does is an argument. Dispatch holds the outcomes
--   Interrupts kernel/arch/x86/idt.c: set_idt_descriptor in Descriptors, idt_alloc_vector in Vectors,
--              idt_init in Init (Start and Gates say what it leaves), isr_handler_main in Handler,
--              with its invariant in Handling
--   Notification kernel/core/notification.c and .h: the queue macros in Queue, sending and dispatch in
--              the module itself, the system calls in Calls; Deliver finds the number that is
--              delivered, Delivered and Dispatch hold the outcomes, Send those of sending
--   Elf        kernel/core/elf.c and .h: the structures, elf64_read, elf64_validate, elf64_file_init and
--              elf64_file_aux; Segments has the loading, over a memory that is a parameter. Init says
--              what a file that is accepted is like, Load and Copy what is put into memory. memcpy reads
--              past the end of a buffer, where the memory is a parameter
--   Server     kernel/core/server.c and .h: name spaces and servers over fayt's hash table, in Find
--              and Spaces; launch_server, over the memory of Elf and a create_blank_context that is a
--              parameter, in Launch; Boot and Enter say what becomes of a launch
--   Portal     kernel/core/portal.c and .h: the structures in the module itself, the page faults in Fault,
--              the handlers and portal in Create, portal_destroy in Destroy. PortalMemory is the
--              interface to the frames and the page tables, and Space the state. Walk is the search
--              of the tree, Resolve a fault in a portal, private or shared, Shared the tree on a fault, Reach the
--              spaces that calls and faults lead to, Keep what all handlers keep, Outcome what portal comes to
--   Scheduler  kernel/core/scheduler.c and .h: reschedule in the module itself, over the contexts, the
--              locals of a core and a Machine for the instructions it uses; create_blank_context in
--              Create. Switch takes a switch apart, Resume and Delivery say what comes of it
--   Apic       kernel/arch/x86/apic.c and kernel/acpi/madt.h: the walk of apic_init over the MADT;
--              Bytes has the reads, Entries one entry, Walk the whole table
--   Gdt        kernel/arch/x86/gdt.c: the descriptors, their bytes and gdt_init; Selectors reads them
--              as the processor does
--   Acpi       kernel/acpi/rsdp.c and rsdp.h: acpi_find_sdt; Search says what it finds
--   Virtual    kernel/core/virtual.c: vmm_map_range and vmm_unmap_range; Range the calls made
--   Sched      servers/sched/sched.c: traverse_and_queue and notify_enqueue_thread, over a tree of
--              threads; Choice says what they choose
--
-- A run comes to a value, a fault, a deadlock or the end of its fuel. A lock is a Boolean, and taking
-- one that is held is a deadlock, since the model has one flow of control. On
-- fuel are the search for a run of frames, where a round for each frame of a module is enough, the
-- loop of NOTIFICATION_POP, for which no fuel is enough once it goes round, and the walk over the
-- MADT, where a round for each entry is enough unless an entry has size 0.
-- Addresses are ℕ with the wrap-around at 2 ^ 64 written out; physical memory is below 2 ^ 47.
--
-- Not modelled: vmm_default_table, the choice of the modules to boot and launch_schedulers,
-- sched_establish_shared_link, the rest of the scheduling server, the start of the processors, the
-- registers of the interrupt controllers and other devices. Outside the model: assembly, port
-- output, and limine.h but for a memory-map entry and a file.
pub mod Base
pub mod Fayt
pub mod Physical
pub mod Paging
pub mod Syscall
pub mod Interrupts
pub mod Notification
pub mod Elf
pub mod Server
pub mod Sched
pub mod Portal
pub mod Scheduler
pub mod Apic
pub mod Gdt
pub mod Acpi
pub mod Virtual

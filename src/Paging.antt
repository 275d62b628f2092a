-- ===== src/Paging.antt =====
-- kernel/arch/x86/paging.c: four- and five-level page tables in memory.
-- A table is an array of 512 words; the kernel reads the frame at `f` at address `f + HIGH_VMA`.
-- NULL is 0. A lock is the Boolean that says whether it is held, and `invlpg` records its address.
pub mod Source
pub mod Level5
pub mod Entry
pub mod Walk
pub mod Frame
pub mod Grow
pub mod Map
pub mod Ensure
pub mod Levels
pub mod Mapping
pub mod FourLevel
pub mod FiveLevel
pub mod Clear
pub mod Unmap
pub mod Removal
pub mod Unmapping
pub mod Lookup
pub mod Kernel
mod Tests
use rock.Base.{
  ℕ, ◌+◌, ◌-◌, ◌*◌, ◌/◌, ◌^◌, bit_and, bit_or, Bool, true, false, List, ◌∷◌, ◌==◌, add64, Run, ok,
  deadlock, ◌>>=◌,
}
use rock.Fayt.{MemOps}
use Source.{FrameSource}

-- paging.h: X86_FLAGS_P, _RW, _US, _PS, _G and _NX
abbrev pub flag_p : ℕ
flag_p = 1

abbrev pub flag_rw : ℕ
flag_rw = 2

abbrev pub flag_us : ℕ
flag_us = 4

abbrev pub flag_ps : ℕ
flag_ps = 128

abbrev pub flag_g : ℕ
flag_g = 256

abbrev pub flag_nx : ℕ
flag_nx = 2 ^ 63

-- PML5_FLAGS_MASK to PML2_FLAGS_MASK, which are one value
abbrev pub flags_mask : ℕ
flags_mask = 2 ^ 64 - 1 - flag_ps - flag_g - flag_nx

-- ~(0xfff) and ~(X86_FLAGS_P), sign-extended to 64 bits
abbrev pub frame_mask : ℕ
frame_mask = 2 ^ 64 - 0x1000

abbrev pub clear_p : ℕ
clear_p = 2 ^ 64 - 1 - flag_p

pub record PmlIndices : Type 0 where
  pub pml5_index : ℕ
  pub pml4_index : ℕ
  pub pml3_index : ℕ
  pub pml2_index : ℕ
  pub pml1_index : ℕ

pub compute_table_indices : ℕ → PmlIndices
compute_table_indices vaddr = record {
  pml5_index = bit_and (vaddr / 2 ^ 48) 0x1ff;
  pml4_index = bit_and (vaddr / 2 ^ 39) 0x1ff;
  pml3_index = bit_and (vaddr / 2 ^ 30) 0x1ff;
  pml2_index = bit_and (vaddr / 2 ^ 21) 0x1ff;
  pml1_index = bit_and (vaddr / 2 ^ 12) 0x1ff;
}

-- the address of `table[index]`
abbrev pub slot : ℕ → ℕ → ℕ
slot table index = add64 table (8 * index)

-- what links a new table at `frame`, in four-level and in five-level paging
abbrev pub link4 : ℕ → ℕ → ℕ
link4 flags frame = bit_or (bit_or frame (bit_and flags flags_mask)) flag_rw

abbrev pub link5 : ℕ → ℕ → ℕ
link5 flags frame = bit_or frame (bit_and flags flags_mask)

module _ (mops : MemOps) (high_vma : ℕ) (src : FrameSource mops high_vma) where
  open mops use {Mem, load64, store64}
  open src use {S, alloc_page}

  -- a `struct page_table` with the memory and the frame allocator that it works on
  pub record Space : Type 0 where
    pub pmlt : ℕ
    pub locked : Bool
    pub frames : S
    pub mem : Mem
    pub flushed : List ℕ

  abbrev pub acquire : Space → Run Space
  acquire sp = elim sp.locked [ true ↦ deadlock | false ↦ ok (record sp { locked = true }) ]

  abbrev pub release : Space → Space
  release sp = record sp { locked = false }

  abbrev pub entry_at : Space → ℕ → ℕ
  entry_at sp p = load64 sp.mem p

  abbrev pub write_entry : Space → ℕ → ℕ → Space
  write_entry sp p e = record sp { mem = store64 sp.mem p e }

  abbrev pub invlpg : Space → ℕ → Space
  invlpg sp vaddr = record sp { flushed = vaddr ∷ sp.flushed }

  -- (uint64_t*)((entry & ~(0xfff)) + HIGH_VMA)
  abbrev pub table_of : ℕ → ℕ
  table_of entry = add64 (bit_and entry frame_mask) high_vma

  -- if((table[index] & X86_FLAGS_P) == 0) table[index] = pmm_alloc(1, 1) | …
  pub ensure_table : (ℕ → ℕ) → Space → ℕ → Run Space
  ensure_table link sp p = elim (bit_and (entry_at sp p) flag_p == 0) [
    | true ↦ alloc_page sp.frames sp.mem >>= λ (frame, s, m).
        ok (write_entry (record sp { frames = s; mem = m }) p (link frame))
    | false ↦ ok sp
  ]

  pub pml4_map_page : Space → ℕ → ℕ → ℕ → Run (ℕ × Space)
  pml4_map_page sp vaddr paddr flags = do
    let ix = compute_table_indices vaddr
    sp0 ← acquire sp
    let slot4 = slot sp0.pmlt ix.pml4_index
    sp1 ← ensure_table (link4 flags) sp0 slot4
    let slot3 = slot (table_of (entry_at sp1 slot4)) ix.pml3_index
    sp2 ← ensure_table (link4 flags) sp1 slot3
    let slot2 = slot (table_of (entry_at sp2 slot3)) ix.pml2_index
    elim (bit_and flags flag_ps == 0) [
      | false ↦ ok (0, release (write_entry sp2 slot2 (bit_or paddr flags)))
      | true ↦ ensure_table (link4 flags) sp2 slot2 >>= λ sp3.
          let slot1 = slot (table_of (entry_at sp3 slot2)) ix.pml1_index in
          ok (slot1, release (write_entry sp3 slot1 (bit_or paddr flags)))
    ]

  pub pml4_unmap_page : Space → ℕ → Run (ℕ × Space)
  pml4_unmap_page sp vaddr = do
    let ix = compute_table_indices vaddr
    sp0 ← acquire sp
    let slot4 = slot sp0.pmlt ix.pml4_index
    let slot3 = slot (table_of (entry_at sp0 slot4)) ix.pml3_index
    let slot2 = slot (table_of (entry_at sp0 slot3)) ix.pml2_index
    let entry2 = entry_at sp0 slot2
    let slot1 = slot (table_of entry2) ix.pml1_index
    elim (bit_and (entry_at sp0 slot4) flag_p == 0) [
      | true ↦ ok (0, release sp0)
      | false ↦ elim (bit_and (entry_at sp0 slot3) flag_p == 0) [
        | true ↦ ok (0, release sp0)
        | false ↦ elim (bit_and (bit_and entry2 0xfff) flag_ps == 0) [
          | false ↦
              ok (0x200000, release (invlpg (write_entry sp0 slot2 (bit_and entry2 clear_p)) vaddr))
          | true ↦ elim (bit_and entry2 flag_p == 0) [
            | true ↦ ok (0, release sp0)
            | false ↦ ok (
              0x1000,
              release (invlpg (write_entry sp0 slot1 (bit_and (entry_at sp0 slot1) clear_p)) vaddr),
            )
          ]
        ]
      ]
    ]

  pub pml4_page_entry : Space → ℕ → Run (ℕ × Space)
  pml4_page_entry sp vaddr = do
    let ix = compute_table_indices vaddr
    sp0 ← acquire sp
    let slot4 = slot sp0.pmlt ix.pml4_index
    let slot3 = slot (table_of (entry_at sp0 slot4)) ix.pml3_index
    let slot2 = slot (table_of (entry_at sp0 slot3)) ix.pml2_index
    let entry2 = entry_at sp0 slot2
    elim (bit_and (entry_at sp0 slot4) flag_p == 0) [
      | true ↦ ok (0, release sp0)
      | false ↦ elim (bit_and (entry_at sp0 slot3) flag_p == 0) [
        | true ↦ ok (0, release sp0)
        | false ↦ elim (bit_and entry2 flag_ps == 0) [
          | false ↦ ok (slot2, release sp0)
          | true ↦ elim (bit_and entry2 flag_p == 0) [
            | true ↦ ok (0, release sp0)
            | false ↦ ok (slot (table_of entry2) ix.pml1_index, release sp0)
          ]
        ]
      ]
    ]

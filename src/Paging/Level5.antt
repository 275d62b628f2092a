-- ===== src/Paging/Level5.antt =====
-- The five-level half of kernel/arch/x86/paging.c: pml5_map_page, pml5_unmap_page, pml5_page_entry.
use rock.Base.{ℕ, bit_and, bit_or, true, false, ◌==◌, Run, ok, ◌>>=◌}
use rock.Fayt.{MemOps}
use rock.Paging.{
  compute_table_indices, slot, link5, flag_p, flag_ps, clear_p, Space, acquire, release, entry_at,
  write_entry, invlpg, table_of, ensure_table,
}
use rock.Paging.Source.{FrameSource}

module _ (mops : MemOps) (high_vma : ℕ) (src : FrameSource mops high_vma) where
  abbrev Sp : Type 0
  Sp = Space mops high_vma src

  abbrev at : Sp → ℕ → ℕ
  at sp p = entry_at mops high_vma src sp p

  abbrev table : ℕ → ℕ
  table e = table_of mops high_vma src e

  abbrev free_lock : Sp → Sp
  free_lock sp = release mops high_vma src sp

  unfoldable pub pml5_map_page : Sp → ℕ → ℕ → ℕ → Run (ℕ × Sp)
  pml5_map_page sp vaddr paddr flags = do
    let ix = compute_table_indices vaddr
    sp0 ← acquire mops high_vma src sp
    let slot5 = slot sp0.pmlt ix.pml5_index
    sp1 ← ensure_table mops high_vma src (link5 flags) sp0 slot5
    let slot4 = slot (table (at sp1 slot5)) ix.pml4_index
    sp2 ← ensure_table mops high_vma src (link5 flags) sp1 slot4
    let slot3 = slot (table (at sp2 slot4)) ix.pml3_index
    sp3 ← ensure_table mops high_vma src (link5 flags) sp2 slot3
    let slot2 = slot (table (at sp3 slot3)) ix.pml2_index
    elim (bit_and flags flag_ps == 0) [
      | false ↦ ok (0, free_lock (write_entry mops high_vma src sp3 slot2 (bit_or paddr flags)))
      | true ↦ ensure_table mops high_vma src (link5 flags) sp3 slot2 >>= λ sp4.
          let slot1 = slot (table (at sp4 slot2)) ix.pml1_index in
          ok (slot1, free_lock (write_entry mops high_vma src sp4 slot1 (bit_or paddr flags)))
    ]

  -- The top-level table is indexed by `pml4_index` here, as the next one is.
  unfoldable pub pml5_unmap_page : Sp → ℕ → Run (ℕ × Sp)
  pml5_unmap_page sp vaddr = do
    let ix = compute_table_indices vaddr
    sp0 ← acquire mops high_vma src sp
    let slot5 = slot sp0.pmlt ix.pml4_index
    let slot4 = slot (table (at sp0 slot5)) ix.pml4_index
    let slot3 = slot (table (at sp0 slot4)) ix.pml3_index
    let slot2 = slot (table (at sp0 slot3)) ix.pml2_index
    let entry2 = at sp0 slot2
    let slot1 = slot (table entry2) ix.pml1_index
    elim (bit_and (at sp0 slot5) flag_p == 0) [
      | true ↦ ok (0, free_lock sp0)
      | false ↦ elim (bit_and (at sp0 slot4) flag_p == 0) [
        | true ↦ ok (0, free_lock sp0)
        | false ↦ elim (bit_and (at sp0 slot3) flag_p == 0) [
          | true ↦ ok (0, free_lock sp0)
          | false ↦ elim (bit_and (bit_and entry2 0xfff) flag_ps == 0) [
            | false ↦ ok (
              0x200000,
              free_lock (
                  invlpg mops high_vma src
                    (write_entry mops high_vma src sp0 slot2 (bit_and entry2 clear_p)) vaddr),
            )
            | true ↦ elim (bit_and entry2 flag_p == 0) [
              | true ↦ ok (0, free_lock sp0)
              | false ↦ ok (
                0x1000,
                free_lock (
                    invlpg mops high_vma src
                      (write_entry mops high_vma src sp0 slot1 (bit_and (at sp0 slot1) clear_p))
                      vaddr),
              )
            ]
          ]
        ]
      ]
    ]

  unfoldable pub pml5_page_entry : Sp → ℕ → Run (ℕ × Sp)
  pml5_page_entry sp vaddr = do
    let ix = compute_table_indices vaddr
    sp0 ← acquire mops high_vma src sp
    let slot5 = slot sp0.pmlt ix.pml5_index
    let slot4 = slot (table (at sp0 slot5)) ix.pml4_index
    let slot3 = slot (table (at sp0 slot4)) ix.pml3_index
    let slot2 = slot (table (at sp0 slot3)) ix.pml2_index
    let entry2 = at sp0 slot2
    elim (bit_and (at sp0 slot5) flag_p == 0) [
      | true ↦ ok (0, free_lock sp0)
      | false ↦ elim (bit_and (at sp0 slot4) flag_p == 0) [
        | true ↦ ok (0, free_lock sp0)
        | false ↦ elim (bit_and (at sp0 slot3) flag_p == 0) [
          | true ↦ ok (0, free_lock sp0)
          | false ↦ elim (bit_and entry2 flag_ps == 0) [
            | false ↦ ok (slot2, free_lock sp0)
            | true ↦ elim (bit_and entry2 flag_p == 0) [
              | true ↦ ok (0, free_lock sp0)
              | false ↦ ok (slot (table entry2) ix.pml1_index, free_lock sp0)
            ]
          ]
        ]
      ]
    ]

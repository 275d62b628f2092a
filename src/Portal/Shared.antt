-- ===== src/Portal/Shared.antt =====
-- Page faults leave the tree of portals as it is.
use rock.Base.{
  ℕ, ◌≡◌, ◌-◌, refl, ok, bit_and, ◌==◌, if◌then◌else◌, get_elem?, sub64, page_size, ltb, ◌/◌,
  Leaves, Leaves-ok, Leaves-fault, Leaves-bind, Leaves-if, Leaves-option, Leaves-weaken, ◌∙◌,
}
use rock.Fayt.Tables.{HashTable}
use rock.Paging.{flag_p, frame_mask}
use rock.Portal.{Page, Portal, SharePoint, PortalMemory, Space, has, portal_req_share}
use rock.Portal.Fault.{
  CurrentContext, absent, without_table, with_table, find_anon, share_frame, shared_paddr, map_anon,
  resolve_in, portal_fault_anon, portal_resolve_fault,
}

module _ (memory : PortalMemory) (hash : HashTable ℕ) (page_hash : HashTable Page)
    (share_point_size : ℕ) where
  share_frame-root :
      (sp : Space memory hash page_hash) (i : ℕ) (point : SharePoint) (page_index : ℕ)
      → Leaves
          (share_frame memory hash page_hash share_point_size sp i point page_index)
          (λ r. r.1.portal_root ≡ sp.portal_root)
  unfolding share_frame
  share_frame-root sp i point page_index =
      Leaves-if (point.paddr page_index == 0) _ _
        (λ e. Leaves-bind (memory.alloc_page sp.rest) _ λ r e'. Leaves-ok refl)
        (λ e. Leaves-ok refl)

  shared_paddr-root :
      (sp : Space memory hash page_hash) (p : Portal) (vaddr : ℕ)
      → Leaves
          (shared_paddr memory hash page_hash share_point_size sp p vaddr)
          (λ r. r.1.portal_root ≡ sp.portal_root)
  unfolding shared_paddr
  shared_paddr-root sp p vaddr =
      Leaves-option p.share_identifier _ _ (λ e. Leaves-fault)
        λ identifier e.
          Leaves-option (hash.search sp.share_map identifier) _ _ (λ e'. Leaves-ok refl)
            λ i at.
              Leaves-option (get_elem? sp.share_points i) _ _ (λ e'. Leaves-fault)
                λ point there.
                  Leaves-if
                    (ltb (sub64 point.length share_point_size / 8) (sub64 vaddr p.base / page_size))
                    _ _ (λ e'. Leaves-ok refl)
                    (λ e'.
                      Leaves-bind
                        (share_frame memory hash page_hash share_point_size sp i point
                          (sub64 vaddr p.base / page_size))
                        _
                        λ r run.
                          Leaves-ok (
                            (share_frame-root sp i point (sub64 vaddr p.base / page_size)).at r
                              run))

  map_anon-root :
      (sp : Space memory hash page_hash) (p : Portal) (vaddr : ℕ)
      → Leaves
          (map_anon memory hash page_hash share_point_size sp p vaddr)
          (λ r. r.1.portal_root ≡ sp.portal_root)
  unfolding map_anon
  map_anon-root sp p vaddr = Leaves-bind (memory.alloc_page sp.rest) _ λ r e.
      Leaves-bind (memory.map_page r.1 vaddr r.0 _) _ λ s e'.
        Leaves-option (page_hash.push sp.pages _ _) _ _ (λ x. Leaves-ok refl) λ t x. Leaves-ok refl

  resolve_in-root :
      (sp : Space memory hash page_hash) (p : Portal) (addr : ℕ)
      → Leaves
          (resolve_in memory hash page_hash share_point_size sp p addr)
          (λ r. r.1.portal_root ≡ sp.portal_root)
  unfolding resolve_in
  resolve_in-root sp p addr =
      let vaddr = sub64 addr (bit_and addr (page_size - 1)) in
      let flushed : Space memory hash page_hash = record sp {
        rest = memory.invlpg sp.rest vaddr;
      } in
      Leaves-if (has p.kind portal_req_share) _ _
        (λ shared.
          Leaves-bind (shared_paddr memory hash page_hash share_point_size flushed p vaddr) _ λ r e.
            let kept = (shared_paddr-root flushed p vaddr).at r e in
            Leaves-option r.0 _ _ (λ z. Leaves-ok kept)
              λ paddr z. Leaves-weaken (map_anon-root r.1 p vaddr) (λ x h. h ∙ kept))
        (λ alone.
          Leaves-bind (memory.alloc_page flushed.rest) _
            λ r e. map_anon-root (record flushed { rest = r.1 }) p vaddr)

  fault_anon-root :
      (sp : Space memory hash page_hash) (addr : ℕ)
      → Leaves
          (portal_fault_anon memory hash page_hash share_point_size sp addr)
          (λ r. r.1.portal_root ≡ sp.portal_root)
  unfolding portal_fault_anon
  fault_anon-root sp addr =
      Leaves-option (find_anon sp.portal_root addr) _ _ (λ n. Leaves-ok refl)
        λ root stop. resolve_in-root sp root addr

  -- A page fault leaves the tree as it is.
  pub resolve-root :
      (sp : Space memory hash page_hash) (context : CurrentContext) (addr error_code : ℕ)
      → Leaves
          (portal_resolve_fault memory hash page_hash share_point_size context sp addr error_code)
          (λ r. r.1.portal_root ≡ sp.portal_root)
  unfolding portal_resolve_fault
  resolve-root sp absent addr error_code = Leaves-ok refl
  resolve-root sp without_table addr error_code = Leaves-ok refl
  resolve-root sp with_table addr error_code =
      Leaves-bind (memory.page_entry sp.rest (bit_and addr frame_mask)) _ λ found e0.
        let sp1 : Space memory hash page_hash = record sp { rest = found.1 } in
        Leaves-bind
          (if bit_and error_code flag_p == 0
            then portal_fault_anon memory hash page_hash share_point_size sp1 addr
            else ok (0, sp1))
          _ λ r e1. Leaves-ok ((tried sp1).at r e1)
    where
      tried :
          (sp1 : Space memory hash page_hash)
          → Leaves
              (if bit_and error_code flag_p == 0
                then portal_fault_anon memory hash page_hash share_point_size sp1 addr
                else ok (0, sp1))
              (λ r. r.1.portal_root ≡ sp1.portal_root)
      tried sp1 =
          Leaves-if (bit_and error_code flag_p == 0) _ _ (λ e. fault_anon-root sp1 addr)
            (λ e. Leaves-ok refl)

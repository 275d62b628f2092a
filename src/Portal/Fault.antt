-- ===== src/Portal/Fault.antt =====
-- kernel/core/portal.c: portal_resolve_fault and portal_fault_anon.
-- hash_table_search leaves NULL where a key is absent, as the code relies on. A share point is
-- allocated without room for `paddr`: its entries are memory behind it, which no other object uses.
use rock.Base.{
  ℕ, ◌-◌, ◌/◌, ◌^◌, bit_and, bit_or, Bool, ◌&&◌, Option, none, some, ltb, leb, ◌==◌, if◌then◌else◌,
  get_elem?, set, Run, ok, fault, ◌>>=◌, add64, sub64, bytes_of, page_size, minus_one_int,
}
use rock.Fayt.Tables.{HashTable}
use rock.Paging.{flag_p, flag_rw, flag_us, flag_nx, frame_mask}
use rock.Portal.{
  portal_req_share, portal_req_anon, portal_prot_write, portal_prot_exec, has, Page, Portal,
  PortalTree, leaf, node, SharePoint, PortalMemory, Space,
}

-- CORE_LOCAL->current_context: NULL, a context without a page table, or one with
pub data CurrentContext : Type 0 where
  absent without_table with_table : CurrentContext

abbrev pub page_fault_cow : ℕ
page_fault_cow = 2 ^ 9

abbrev pub page_fault_share : ℕ
page_fault_share = 2 ^ 10

abbrev pub page_fault_sp : ℕ
page_fault_sp = 2 ^ 11

-- the flags that portal_fault_anon maps a page with
abbrev pub fault_flags : Portal → ℕ
fault_flags root =
    let base = bit_or (bit_or flag_p flag_us) flag_nx in
    let writable = if has root.prot portal_prot_write then bit_or base flag_rw else base in
    if has root.prot portal_prot_exec then bit_and writable (2 ^ 64 - 1 - flag_nx) else writable

-- `root->base <= addr && (root->base + root->limit) >= addr`
abbrev pub covers : Portal → ℕ → Bool
covers root addr = leb root.base addr && leb addr (add64 root.base root.limit)

-- the portal that the walk of portal_fault_anon stops at
unfoldable pub find_anon : PortalTree → ℕ → Option Portal
find_anon leaf addr = none
find_anon (node l root r) addr =
    let to_left = find_anon l addr in
    let to_right = find_anon r addr in
    if has root.kind portal_req_anon && covers root addr
    then some root
    else if ltb addr root.base
    then to_left
    else to_right

module _ (memory : PortalMemory) (hash : HashTable ℕ) (page_hash : HashTable Page)
    (share_point_size : ℕ) where
  open memory use {alloc_page, map_page, page_entry, invlpg}

  -- `share_point->paddr[page_index]`, given a frame if it has none
  unfoldable pub share_frame :
      Space memory hash page_hash → ℕ → SharePoint → ℕ → Run (ℕ × Space memory hash page_hash)
  share_frame sp i point page_index =
      if point.paddr page_index == 0
      then (alloc_page sp.rest >>= λ r. ok (
        r.0,
        record sp {
          share_points =
              set sp.share_points i
                (record point { paddr = λ j. if j == page_index then r.0 else point.paddr j });
          rest = r.1;
        },
      ))
      else ok (point.paddr page_index, sp)

  -- the frame of a shared portal; `none` is -1
  unfoldable pub shared_paddr :
      Space memory hash page_hash → Portal → ℕ → Run (Option ℕ × Space memory hash page_hash)
  shared_paddr sp root vaddr = elim root.share_identifier [
    | none ↦ fault
    | some identifier ↦ elim (hash.search sp.share_map identifier) [
      | none ↦ ok (none, sp)
      | some i ↦ elim (get_elem? sp.share_points i) [
        | none ↦ fault
        | some point ↦
            let page_index = sub64 vaddr root.base / page_size in
            if ltb (sub64 point.length share_point_size / 8) page_index
            then ok (none, sp)
            else (share_frame sp i point page_index >>= λ r. ok (some r.0, r.1))
      ]
    ]
  ]

  -- the page of its own that the portal is given, whatever `paddr` is
  unfoldable pub map_anon :
      Space memory hash page_hash → Portal → ℕ → Run (ℕ × Space memory hash page_hash)
  map_anon sp root vaddr = do
    r ← alloc_page sp.rest
    rest ← map_page r.1 vaddr r.0 (fault_flags root)
    elim (page_hash.push sp.pages (bytes_of 8 vaddr)
        (record { vaddr = vaddr; frame = record { paddr = r.0; refcnt = 1 } })) [
          | none ↦ ok (minus_one_int, record sp { rest = rest })
          | some pages ↦ ok (0, record sp { pages = pages; rest = rest })
        ]

  -- the body of the loop for the portal that it stops at
  unfoldable pub resolve_in :
      Space memory hash page_hash → Portal → ℕ → Run (ℕ × Space memory hash page_hash)
  resolve_in sp root addr =
      let vaddr = sub64 addr (bit_and addr (page_size - 1)) in
      let flushed = record sp { rest = invlpg sp.rest vaddr } in
      if has root.kind portal_req_share
      then (shared_paddr flushed root vaddr >>= λ r. elim r.0 [
        | none ↦ ok (minus_one_int, r.1)
        | some paddr ↦ map_anon r.1 root vaddr
      ])
      else (alloc_page flushed.rest >>= λ r. map_anon (record flushed { rest = r.1 }) root vaddr)

  unfoldable pub portal_fault_anon :
      Space memory hash page_hash → ℕ → Run (ℕ × Space memory hash page_hash)
  portal_fault_anon sp addr = elim (find_anon sp.portal_root addr) [
    | none ↦ ok (minus_one_int, sp)
    | some root ↦ resolve_in sp root addr
  ]

  -- portal_fault_cow, portal_fault_share and portal_fault_sp
  abbrev pub fault_unsupported : ℕ
  fault_unsupported = minus_one_int

  -- the tests of the entry that was there before
  abbrev pub check_entry : ℕ → ℕ
  check_entry entry =
      if has entry page_fault_cow
      then fault_unsupported
      else if has entry page_fault_share
      then fault_unsupported
      else if has entry page_fault_sp
      then fault_unsupported
      else 0

  unfoldable pub portal_resolve_fault :
      CurrentContext → Space memory hash page_hash → ℕ → ℕ → Run (ℕ × Space memory hash page_hash)
  portal_resolve_fault absent sp faulting_address error_code = ok (minus_one_int, sp)
  portal_resolve_fault without_table sp faulting_address error_code = ok (minus_one_int, sp)
  portal_resolve_fault with_table sp faulting_address error_code = do
    found ← page_entry sp.rest (bit_and faulting_address frame_mask)
    let entry = elim found.0 as (λ x. ℕ) [ none ↦ 0 | some e ↦ e ]
    let sp1 = record sp { rest = found.1 }
    r ←
        if bit_and error_code flag_p == 0
        then portal_fault_anon sp1 faulting_address
        else ok (0, sp1)
    ok (if r.0 == minus_one_int then minus_one_int else check_entry entry, r.1)

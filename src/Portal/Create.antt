-- ===== src/Portal/Create.antt =====
-- kernel/core/portal.c: the handlers of the kinds of portal, and portal itself.
-- BST_GENERIC_INSERT of fayt/bst.h is a parameter. The portal that is built is not in the tree
-- before portal succeeds, so a failure leaves nothing of it but what its handlers did.
use rock.Base.{
  ℕ, zero, suc, ◌+◌, ◌/◌, ◌%◌, ◌^◌, bit_and, bit_or, Option, none, some, [], ◌∷◌, ◌++◌, length,
  ◌==◌, if◌then◌else◌, get_elem?, Run, ok, fault, ◌>>=◌, add64, sub64, page_size, minus_one_int,
}
use rock.Fayt.{Rounding}
use rock.Fayt.Tables.{HashTable}
use rock.Portal.{
  portal_req_share, portal_req_direct, portal_req_anon, portal_req_cow, portal_req_sp,
  portal_resp_failure, portal_resp_success, link_circular, link_circular_magic, has,
  portal_translate_protections, PortalLink, PortalReq, PortalResp, Page, Portal, PortalTree,
  SharePoint, PortalMemory, Space,
}
use rock.Portal.Fault.{CurrentContext, absent, without_table, with_table}

-- `sizeof(struct portal_link)`, which is packed
abbrev pub portal_link_size : ℕ
portal_link_size = 25

-- BST_GENERIC_INSERT
pub record Bst : Type 0 where
  pub insert : PortalTree → Portal → PortalTree

module _ (memory : PortalMemory) (hash : HashTable ℕ) (page_hash : HashTable Page)
    (rounding : Rounding) (share_point_size circular_queue_size : ℕ) where
  open memory use {State, map_page, write_link, circular_queue_init}

  -- the loop of portal_handle_direct, `left` pages from the `i`-th on
  unfoldable pub map_direct : State → PortalReq → ℕ → ℕ → ℕ → Run State
  map_direct s req zero i vaddr = ok s
  map_direct s req (suc left) i vaddr = elim (get_elem? req.paddr i) [
    | none ↦ fault
    | some paddr ↦ map_page s vaddr paddr (portal_translate_protections req.prot) >>= λ s'.
        map_direct s' req left (i + 1) (add64 vaddr page_size)
  ]

  -- the portal, and the space, that a handler leaves; the first number is what it returns
  abbrev pub Handled : Type 0
  Handled = ℕ × Portal × Space memory hash page_hash

  abbrev pub with_kind : Portal → ℕ → Portal
  with_kind portal flag = record portal { kind = bit_or portal.kind flag }

  unfoldable pub portal_handle_direct :
      Space memory hash page_hash → Portal → PortalReq → Run Handled
  portal_handle_direct sp portal req =
      map_direct sp.rest req (rounding.div_roundup req.morphology_length page_size) 0
        req.morphology_addr
      >>= λ s. ok (0, with_kind portal portal_req_direct, record sp { rest = s })

  -- the link at the start of the shared memory, with a queue of ints behind it
  unfoldable pub link_of : PortalReq → PortalLink
  link_of req = record {
    lock = 0;
    length = req.morphology_length % 2 ^ 32;
    header_offset = 0;
    header_limit = portal_link_size;
    data_offset = portal_link_size + circular_queue_size;
    data_limit = sub64 (sub64 req.morphology_length portal_link_size) circular_queue_size % 2 ^ 32;
    magic = link_circular_magic;
  }

  unfoldable pub set_up_link : State → PortalReq → Run State
  set_up_link s req =
      if bit_and req.share_type link_circular == link_circular
      then (do
        s' ← write_link s req.morphology_addr (link_of req)
        circular_queue_init s' (add64 req.morphology_addr portal_link_size)
            (add64 (add64 req.morphology_addr portal_link_size) circular_queue_size)
            (sub64 (sub64 req.morphology_length portal_link_size) circular_queue_size / 4 % 2 ^ 32)
            4)
      else ok s

  unfoldable pub new_share_point : State → PortalReq → SharePoint
  new_share_point s req = record {
    identifier = req.share_identifier;
    length = add64 share_point_size (rounding.div_roundup req.morphology_length page_size);
    paddr = memory.behind s;
  }

  unfoldable pub portal_handle_share :
      Space memory hash page_hash → Portal → PortalReq → Run Handled
  portal_handle_share sp portal req =
      let shared = with_kind portal portal_req_share in
      let named = record shared { share_identifier = some req.share_identifier } in
      elim (hash.search sp.share_map req.share_identifier) [
        | none ↦
            if req.share_create == 0
            then ok (minus_one_int, shared, sp)
            else (let made = record sp {
              share_points = sp.share_points ++ new_share_point sp.rest req ∷ [];
            } in
                elim (hash.push sp.share_map req.share_identifier (length sp.share_points)) [
                  | none ↦ ok (minus_one_int, named, made)
                  | some table ↦ set_up_link sp.rest req >>= λ s.
                      ok (0, named, record made { share_map = table; rest = s })
                ])
        | some i ↦ elim (get_elem? sp.share_points i) [
          | none ↦ fault
          | some point ↦ ok (0, record shared { share_identifier = some point.identifier }, sp)
        ]
      ]

  -- portal_handle_anon, portal_handle_cow and portal_handle_sp
  abbrev pub handle_flag : ℕ → Space memory hash page_hash → Portal → PortalReq → Run Handled
  handle_flag flag sp portal req = ok (0, with_kind portal flag, sp)

  -- `if(req->type & flag) if(handler(portal, req) == -1) goto failure;`
  abbrev pub handle :
      (Space memory hash page_hash → Portal → PortalReq → Run Handled)
      → ℕ
      → PortalReq
      → Handled
      → Run Handled
  handle handler flag req h =
      if h.0 == minus_one_int then ok h else if has req.kind flag then handler h.2 h.1 req else ok h

  -- the new portal before the handlers
  abbrev pub fresh_portal : PortalReq → Portal
  fresh_portal req = record {
    kind = 0;
    prot = req.prot;
    share_identifier = none;
    base = req.morphology_addr;
    limit = req.morphology_length;
    flags = 0;
    pages = none;
  }

  unfoldable pub portal_handlers : Space memory hash page_hash → PortalReq → Run Handled
  portal_handlers sp req = do
    direct ← handle portal_handle_direct portal_req_direct req (0, fresh_portal req, sp)
    anon ← handle (handle_flag portal_req_anon) portal_req_anon req direct
    share ← handle portal_handle_share portal_req_share req anon
    cow ← handle (handle_flag portal_req_cow) portal_req_cow req share
    handle (handle_flag portal_req_sp) portal_req_sp req cow

  abbrev pub success : Portal → PortalResp
  success portal = record {
    base = portal.base;
    limit = portal.limit;
    flags = bit_or portal_resp_success portal.flags;
  }

  abbrev pub failure : PortalResp
  failure = record { base = 0; limit = 0; flags = portal_resp_failure }

  -- with the page table of the context, or the kernel's where there is no context
  unfoldable pub portal_in :
      Bst
      → Space memory hash page_hash
      → PortalReq
      → Run (ℕ × PortalResp × Space memory hash page_hash)
  portal_in bst sp req = portal_handlers sp req >>= λ h.
      if h.0 == minus_one_int
      then ok (minus_one_int, failure, h.2)
      else ok (0, success h.1, record h.2 { portal_root = bst.insert h.2.portal_root h.1 })

  -- `sp` is the space of the page table that is chosen; `resp` stays as it is where it is NULL
  unfoldable pub portal :
      Bst
      → CurrentContext
      → Space memory hash page_hash
      → Option PortalReq
      → Option PortalResp
      → Run (ℕ × Option PortalResp × Space memory hash page_hash)
  portal bst context sp none resp = ok (minus_one_int, resp, sp)
  portal bst context sp (some req) none = ok (minus_one_int, none, sp)
  portal bst without_table sp (some req) (some resp) = ok (minus_one_int, some failure, sp)
  portal bst absent sp (some req) (some resp) =
      portal_in bst sp req >>= λ r. ok (r.0, some r.1, r.2)
  portal bst with_table sp (some req) (some resp) =
      portal_in bst sp req >>= λ r. ok (r.0, some r.1, r.2)

-- ===== src/Portal/Outcome.antt =====
-- What portal and portal_destroy come to.
use rock.Base.{
  ℕ, ◌≡◌, ◌≢◌, refl, sym, ap, subst, ◌⊎◌, inl, inr, none, ◌==◌, length, get_elem?, fault,
  minus_one_int, Leaves, Leaves-ok, Leaves-fault, Leaves-bind, Leaves-if, Leaves-option,
}
use rock.Fayt.{Rounding}
use rock.Fayt.Tables.{HashTable}
use rock.Portal.{
  Page, Portal, PortalTree, leaf, node, PortalReq, PortalResp, PortalMemory, Space,
  portal_resp_success,
}
use rock.Portal.Create.{
  Bst, map_direct, portal_handle_direct, portal_handle_share, failure, success, portal_handlers,
  set_up_link, portal_in,
}
use rock.Portal.Destroy.{portal_destroy}
use rock.Portal.Keep.{Sp, Keeps, handlers-keep}
use rock.Portal.Walk.{In, here, in_left, in_right}

-- the portal has what the request says, and no table of pages
abbrev pub Built : PortalReq → Portal → Type 0
Built req p =
    (p.base ≡ req.morphology_addr)
    × (p.limit ≡ req.morphology_length)
    × (p.prot ≡ req.prot)
    × (p.flags ≡ 0)
    × (p.pages ≡ none)

module _ (memory : PortalMemory) (hash : HashTable ℕ) (page_hash : HashTable Page)
    (rounding : Rounding) (share_point_size circular_queue_size : ℕ) where
  module _ (req : PortalReq)
      (start : Sp memory hash page_hash rounding share_point_size circular_queue_size) where
    -- A handler changes neither what the portal takes from the request nor the tree.
    abbrev Kept : Portal → Space memory hash page_hash → Type 0
    Kept p sp = Built req p × (sp.portal_root ≡ start.portal_root) × (sp.pages ≡ start.pages)

    direct-Kept :
        Keeps memory hash page_hash rounding share_point_size circular_queue_size Kept req
          (portal_handle_direct memory hash page_hash rounding share_point_size circular_queue_size)
    unfolding portal_handle_direct
    direct-Kept sp p k =
        Leaves-bind
          (map_direct memory hash page_hash rounding share_point_size circular_queue_size sp.rest
            req _ 0 req.morphology_addr)
          _ λ s e. Leaves-ok k

    share-Kept :
        Keeps memory hash page_hash rounding share_point_size circular_queue_size Kept req
          (portal_handle_share memory hash page_hash rounding share_point_size circular_queue_size)
    unfolding portal_handle_share
    share-Kept sp p k =
        Leaves-option (hash.search sp.share_map req.share_identifier) _ _
          (λ e.
            Leaves-if (req.share_create == 0) _ _ (λ e'. Leaves-ok k)
              λ e'.
                Leaves-option (hash.push sp.share_map req.share_identifier (length sp.share_points))
                  _ _ (λ e''. Leaves-ok k)
                  λ table e''.
                    Leaves-bind
                      (set_up_link memory hash page_hash rounding share_point_size
                        circular_queue_size sp.rest req)
                      _ λ s e3. Leaves-ok k)
          λ i e.
            Leaves-option (get_elem? sp.share_points i) _ _ (λ e'. Leaves-fault)
              λ point e'. Leaves-ok k

  -- how portal ends: nothing is inserted, or one portal with what the request says is
  pub data Outcome (bst : Bst) (start : Space memory hash page_hash) (req : PortalReq)
      : ℕ → PortalResp → Space memory hash page_hash → Type 0 where
    failed :
        (sp : Space memory hash page_hash)
        → sp.portal_root ≡ start.portal_root
        → sp.pages ≡ start.pages
        → Outcome bst start req minus_one_int
            (failure memory hash page_hash rounding share_point_size circular_queue_size)
            sp
    inserted :
        (p : Portal) (sp : Space memory hash page_hash)
        → Built req p
        → sp.portal_root ≡ bst.insert start.portal_root p
        → sp.pages ≡ start.pages
        → Outcome bst start req 0
            (record {
              base = req.morphology_addr;
              limit = req.morphology_length;
              flags = portal_resp_success;
            })
            sp

  success-Built :
      (req : PortalReq) (p : Portal)
      → Built req p
      → success memory hash page_hash rounding share_point_size circular_queue_size p ≡ record {
        base = req.morphology_addr;
        limit = req.morphology_length;
        flags = portal_resp_success;
      }
  success-Built req p b = rw (b.0, b.1, b.3) refl

  -- Where portal's checks pass and it returns, the outcome is one of two: it returns -1 with the
  -- failure response and the tree is as it was, or it returns 0 with the range of the request and
  -- one portal of that range, of the protection of the request and without pages is inserted. The
  -- pages that faults recorded stay.
  pub portal_in-Outcome :
      (bst : Bst) (sp : Space memory hash page_hash) (req : PortalReq)
      → Leaves
          (portal_in memory hash page_hash rounding share_point_size circular_queue_size bst sp req)
          (λ r. Outcome bst sp req r.0 r.1 r.2)
  unfolding portal_in
  portal_in-Outcome bst sp req =
      Leaves-bind
        (portal_handlers memory hash page_hash rounding share_point_size circular_queue_size sp req)
        _
        λ h e.
          let kept =
            (handlers-keep memory hash page_hash rounding share_point_size circular_queue_size
                (Kept req sp) req sp (direct-Kept req sp) (share-Kept req sp)
                (λ flag sp1 p k. Leaves-ok k) ((refl, refl, refl, refl, refl), refl, refl)).at
              h e in
          Leaves-if (h.0 == minus_one_int) _ _ (λ e'. Leaves-ok (failed h.2 kept.1 kept.2))
            (λ e'. Leaves-ok (
              let after : Space memory hash page_hash = record h.2 {
                portal_root = bst.insert h.2.portal_root h.1;
              } in
              subst (λ resp. Outcome bst sp req 0 resp after) (sym (success-Built req h.1 kept.0))
                (inserted h.1 after kept.0 (ap (λ t. bst.insert t h.1) kept.1) kept.2)))

  -- no portal of the tree has a table of pages
  abbrev pub WithoutPages : PortalTree → Type 0
  WithoutPages t = (p : Portal) → In p t → p.pages ≡ none

  destroy_none :
      (s : memory.State) (t : PortalTree)
      → WithoutPages t
      → (t ≡ leaf) ⊎ (portal_destroy memory s t ≡ fault)
  unfolding portal_destroy
  destroy_none s leaf without = inl refl
  destroy_none s (node l p r) without =
      let nothing = without p (here refl) in
      inr (elim (destroy_none s l (λ q i. without q (in_left i))) [
        | inl e ↦ elim (destroy_none s r (λ q i. without q (in_right i))) [
          | inl e' ↦ rw (portal_destroy, e, e', portal_destroy, portal_destroy, nothing) refl
          | inr e' ↦ rw (portal_destroy, e, portal_destroy, e') refl
        ]
        | inr e ↦ rw (portal_destroy, e) refl
      ])

  -- portal_destroy of a tree that has a portal, none of which has pages, is a fault.
  pub portal_destroy-fault :
      (s : memory.State) (t : PortalTree)
      → t ≢ leaf
      → WithoutPages t
      → portal_destroy memory s t ≡ fault
  portal_destroy-fault s t more without = elim (destroy_none s t without) [
    | inl e ↦ absurd (more e)
    | inr e ↦ e
  ]

-- ===== src/Portal/Reach.antt =====
-- The spaces that portal and portal_resolve_fault lead to.
use rock.Base.{
  ℕ, ◌≢◌, ◌⊎◌, inl, inr, fault, ◌≡◌, refl, sym, subst, Option, none, some, ok, Leaves, Leaves-ok,
  Leaves-bind,
}
use rock.Fayt.{Rounding}
use rock.Fayt.Tables.{HashTable}
use rock.Portal.{PortalTree, leaf, Page, Portal, PortalReq, PortalResp, PortalMemory, Space}
use rock.Portal.Fault.{CurrentContext, absent, without_table, with_table, portal_resolve_fault}
use rock.Portal.Create.{Bst, portal_in, portal}
use rock.Portal.Walk.{In}
use rock.Portal.Destroy.{portal_destroy}
use rock.Portal.Outcome.{
  Outcome, failed, inserted, portal_in-Outcome, WithoutPages, portal_destroy-fault,
}
use rock.Portal.Shared.{resolve-root}

module _ (memory : PortalMemory) (hash : HashTable ℕ) (page_hash : HashTable Page)
    (rounding : Rounding) (share_point_size circular_queue_size : ℕ) where
  abbrev Sp : Type 0
  Sp = Space memory hash page_hash

  -- the tree is as it was, or has one more portal, without pages
  data Grown (bst : Bst) (start sp : Sp) : Type 0 where
    as_it_was : sp.portal_root ≡ start.portal_root → Grown bst start sp
    one_more :
        (p : Portal)
        → p.pages ≡ none
        → sp.portal_root ≡ bst.insert start.portal_root p
        → Grown bst start sp

  Grown-Outcome :
      (bst : Bst) (start : Sp) (req : PortalReq) (r : ℕ) (resp : PortalResp) (sp : Sp)
      → Outcome memory hash page_hash rounding share_point_size circular_queue_size bst start req r
          resp sp
      → Grown bst start sp
  Grown-Outcome bst start req r resp sp (failed to root pages) = as_it_was root
  Grown-Outcome bst start req r resp sp (inserted p to built root pages) = one_more p built.4 root

  -- what portal does to the tree, where a portal is inserted or nothing is
  portal-root :
      (bst : Bst) (context : CurrentContext) (sp : Sp) (req : Option PortalReq)
      (resp : Option PortalResp)
      → Leaves
          (portal memory hash page_hash rounding share_point_size circular_queue_size bst context sp
            req resp)
          (λ r. Grown bst sp r.2)
  unfolding portal
  portal-root bst context sp none resp = Leaves-ok (as_it_was refl)
  portal-root bst context sp (some req) none = Leaves-ok (as_it_was refl)
  portal-root bst without_table sp (some req) (some resp) = Leaves-ok (as_it_was refl)
  portal-root bst absent sp (some req) (some resp) =
      Leaves-bind
        (portal_in memory hash page_hash rounding share_point_size circular_queue_size bst sp req) _
        λ h e. Leaves-ok (
          Grown-Outcome bst sp req h.0 h.1 h.2 (
            (portal_in-Outcome memory hash page_hash rounding share_point_size circular_queue_size
                bst sp req).at
              h e))
  portal-root bst with_table sp (some req) (some resp) =
      Leaves-bind
        (portal_in memory hash page_hash rounding share_point_size circular_queue_size bst sp req) _
        λ h e. Leaves-ok (
          Grown-Outcome bst sp req h.0 h.1 h.2 (
            (portal_in-Outcome memory hash page_hash rounding share_point_size circular_queue_size
                bst sp req).at
              h e))

  -- The insertion leaves portals of the tree and the new one.
  abbrev pub InsertsOnly : Bst → Type 0
  InsertsOnly bst = (t : PortalTree) (p q : Portal) → In q (bst.insert t p) → In q t ⊎ (p ≡ q)

  -- the spaces that calls of portal and page faults lead to from one without portals
  pub data Reaches (bst : Bst) : Sp → Type 0 where
    started : (sp : Sp) → sp.portal_root ≡ leaf → Reaches bst sp
    by_portal :
        (sp sp' : Sp) (context : CurrentContext) (req : Option PortalReq)
        (resp resp' : Option PortalResp) (r : ℕ)
        → Reaches bst sp
        → portal memory hash page_hash rounding share_point_size circular_queue_size bst context sp
            req resp
          ≡ ok (r, resp', sp')
        → Reaches bst sp'
    by_fault :
        (sp sp' : Sp) (context : CurrentContext) (addr error_code r : ℕ)
        → Reaches bst sp
        → portal_resolve_fault memory hash page_hash share_point_size context sp addr error_code
          ≡ ok (r, sp')
        → Reaches bst sp'

  Grown-WithoutPages :
      (bst : Bst) (start sp : Sp)
      → InsertsOnly bst
      → Grown bst start sp
      → WithoutPages memory hash page_hash rounding share_point_size circular_queue_size
          start.portal_root
      → WithoutPages memory hash page_hash rounding share_point_size circular_queue_size
          sp.portal_root
  Grown-WithoutPages bst start sp only (as_it_was root) w q i = w q (subst (In q) root i)
  Grown-WithoutPages bst start sp only (one_more p pages root) w q i =
      elim (only start.portal_root p q (subst (In q) root i)) [
        | inl old ↦ w q old
        | inr new ↦ subst (λ x. x.pages ≡ none) new pages
      ]

  Reaches-WithoutPages :
      (bst : Bst) (sp : Sp)
      → InsertsOnly bst
      → Reaches bst sp
      → WithoutPages memory hash page_hash rounding share_point_size circular_queue_size
          sp.portal_root
  Reaches-WithoutPages bst sp only (started start root) =
      subst (WithoutPages memory hash page_hash rounding share_point_size circular_queue_size)
        (sym root) (λ p i. elim i [ ])
  Reaches-WithoutPages bst sp only (by_portal before after context req resp resp' r reach e) =
      Grown-WithoutPages bst before after only
        ((portal-root bst context before req resp).at (r, resp', after) e)
        (Reaches-WithoutPages bst before only reach)
  Reaches-WithoutPages bst sp only (by_fault before after context addr error_code r reach e) =
      let kept =
        (resolve-root memory hash page_hash share_point_size before context addr error_code).at
          (r, after) e in
      subst (WithoutPages memory hash page_hash rounding share_point_size circular_queue_size)
        (sym kept) (Reaches-WithoutPages bst before only reach)

  -- In every space that is reached and has a portal, where the insertion leaves only the portals of
  -- the tree and the new one, portal_destroy of its tree is a fault: portal and the page faults leave
  -- every portal without its table of pages.
  pub Reaches-portal_destroy :
      (bst : Bst) (sp : Sp)
      → InsertsOnly bst
      → Reaches bst sp
      → sp.portal_root ≢ leaf
      → portal_destroy memory sp.rest sp.portal_root ≡ fault
  Reaches-portal_destroy bst sp only reach more =
      portal_destroy-fault memory hash page_hash rounding share_point_size circular_queue_size
        sp.rest sp.portal_root more (Reaches-WithoutPages bst sp only reach)

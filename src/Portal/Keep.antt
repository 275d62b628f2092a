-- ===== src/Portal/Keep.antt =====
-- What every handler of a portal keeps, all of them keep.
use rock.Base.{ℕ, ◌==◌, Run, minus_one_int, Leaves, Leaves-ok, Leaves-bind, Leaves-if}
use rock.Fayt.{Rounding}
use rock.Fayt.Tables.{HashTable}
use rock.Portal.{
  Page, Portal, PortalReq, PortalMemory, Space, has, portal_req_share, portal_req_direct,
  portal_req_anon, portal_req_cow, portal_req_sp,
}
use rock.Portal.Create.{
  Handled, handle, handle_flag, portal_handle_direct, portal_handle_share, portal_handlers,
  fresh_portal,
}

module _ (memory : PortalMemory) (hash : HashTable ℕ) (page_hash : HashTable Page)
    (rounding : Rounding) (share_point_size circular_queue_size : ℕ) where
  abbrev pub Sp : Type 0
  Sp = Space memory hash page_hash

  abbrev pub Result : Type 0
  Result = Handled memory hash page_hash rounding share_point_size circular_queue_size

  -- `handler` keeps what `Q` says of the portal and the space
  abbrev pub Keeps :
      (Portal → Sp → Type 0) → PortalReq → (Sp → Portal → PortalReq → Run Result) → Type 0
  Keeps Q req handler = (sp : Sp) (p : Portal) → Q p sp → Leaves (handler sp p req) (λ h. Q h.1 h.2)

  module _ (Q : Portal → Sp → Type 0) (req : PortalReq) where
    handle-keeps :
        (handler : Sp → Portal → PortalReq → Run Result) (flag : ℕ) (h : Result)
        → Keeps Q req handler
        → Q h.1 h.2
        → Leaves
            (handle memory hash page_hash rounding share_point_size circular_queue_size handler flag
              req h)
            (λ r. Q r.1 r.2)
    handle-keeps handler flag h k u =
        Leaves-if (h.0 == minus_one_int) _ _ (λ e. Leaves-ok u)
          λ e. Leaves-if (has req.kind flag) _ _ (λ e'. k h.2 h.1 u) (λ e'. Leaves-ok u)

    pub handlers-keep :
        (sp : Sp)
        → Keeps Q req (
            portal_handle_direct memory hash page_hash rounding share_point_size
              circular_queue_size)
        → Keeps Q req (
            portal_handle_share memory hash page_hash rounding share_point_size circular_queue_size)
        → ((flag : ℕ)
            → Keeps Q req (
                handle_flag memory hash page_hash rounding share_point_size circular_queue_size
                  flag))
        → Q
            (fresh_portal memory hash page_hash rounding share_point_size circular_queue_size req)
            sp
        → Leaves
            (portal_handlers memory hash page_hash rounding share_point_size circular_queue_size sp
              req)
            (λ r. Q r.1 r.2)
    unfolding portal_handlers
    handlers-keep sp k_direct k_share k_flag u =
        let run : (Sp → Portal → PortalReq → Run Result) → ℕ → Result → Run Result =
          λ handler flag h.
            handle memory hash page_hash rounding share_point_size circular_queue_size handler flag
              req h in
        let direct =
          portal_handle_direct memory hash page_hash rounding share_point_size
            circular_queue_size in
        let share =
          portal_handle_share memory hash page_hash rounding share_point_size circular_queue_size in
        let only : ℕ → Sp → Portal → PortalReq → Run Result =
          handle_flag memory hash page_hash rounding share_point_size circular_queue_size in
        let new : Result = (
          0,
          fresh_portal memory hash page_hash rounding share_point_size circular_queue_size req,
          sp,
        ) in
        Leaves-bind (run direct portal_req_direct new) _ λ h1 e1.
          let u1 = (handle-keeps direct portal_req_direct new k_direct u).at h1 e1 in
          Leaves-bind (run (only portal_req_anon) portal_req_anon h1) _ λ h2 e2.
            let u2 =
              (handle-keeps (only portal_req_anon) portal_req_anon h1 (k_flag portal_req_anon)
                  u1).at
                h2 e2 in
            Leaves-bind (run share portal_req_share h2) _ λ h3 e3.
              let u3 = (handle-keeps share portal_req_share h2 k_share u2).at h3 e3 in
              Leaves-bind (run (only portal_req_cow) portal_req_cow h3) _ λ h4 e4.
                let u4 =
                  (handle-keeps (only portal_req_cow) portal_req_cow h3 (k_flag portal_req_cow)
                      u3).at
                    h4 e4 in
                handle-keeps (only portal_req_sp) portal_req_sp h4 (k_flag portal_req_sp) u4

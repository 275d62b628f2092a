-- ===== src/Portal/Resolve.antt =====
-- Page faults in the pages of an anonymous portal, shared or not, and those of pages that are there.
use rock.Base.{
  ℕ, List, get_elem?, set, ltb, if◌then◌else◌, ◌/◌, ◌+◌, ◌-◌, ◌%◌, ◌^◌, ◌≤◌, ◌<◌, ◌≡◌, ◌≢◌, refl,
  ◌∙◌, ◌⊎◌, inl, inr, true, false, Option, none, some, ◌==◌, ok, bit_and, sub64, bytes_of,
  page_size, minus_one_int, Leaves, Leaves-ok, Leaves-bind, Leaves-option, arith,
}
use rock.Base.Bits.Page.{bit_and-offset, bit_and-floor}
use rock.Fayt.Tables.{HashTable}
use rock.Paging.{flag_p, frame_mask}
use rock.Portal.{
  Page, Portal, SharePoint, PortalMemory, Space, has, portal_req_share,
  portal_translate_protections,
}
use rock.Portal.Fault.{
  CurrentContext, absent, without_table, with_table, page_fault_cow, page_fault_share,
  page_fault_sp, fault_flags, find_anon, check_entry, map_anon, resolve_in, portal_fault_anon,
  portal_resolve_fault,
}
use rock.Portal.Walk.{covered, In, IsAnon, Separate, find_anon-In, find_anon_stops}

fault_flags-translate : (p : Portal) → fault_flags p ≡ portal_translate_protections p.prot
unfolding portal_translate_protections
fault_flags-translate p = refl

floor :
    (addr : ℕ) → addr < 2 ^ 64 → sub64 addr (bit_and addr (page_size - 1)) ≡ addr - addr % page_size
floor addr h = omega (arith, bit_and-offset addr)

floor-mask : (addr : ℕ) → addr < 2 ^ 64 → bit_and addr frame_mask ≡ addr - addr % page_size
floor-mask addr h = bit_and-floor addr h ∙ omega arith

-- the share points after a fault, with `frame` for the page
abbrev pub with_frame : List SharePoint → ℕ → SharePoint → ℕ → ℕ → List SharePoint
with_frame points i point page_index frame =
    set points i (record point { paddr = λ j. if j == page_index then frame else point.paddr j })

module _ (memory : PortalMemory) (hash : HashTable ℕ) (page_hash : HashTable Page)
    (share_point_size : ℕ) where
  open memory use {State, alloc_page, map_page, page_entry, invlpg}

  -- what the kernel does for a page at `page` that the portal is to have
  pub record Supplies (sp : Space memory hash page_hash) (p : Portal) (page : ℕ) : Type 0 where
    pub entry : Option ℕ
    pub looked : State
    pub leaked : State
    pub frames : State
    pub mapped : State
    pub lost : ℕ
    pub frame : ℕ
    pub pages : page_hash.Table
    pub looks : page_entry sp.rest page ≡ ok (entry, looked)
    pub unflagged :
        check_entry memory hash page_hash share_point_size
          (elim entry as (λ x. ℕ) [ none ↦ 0 | some e ↦ e ])
        ≡ 0
    pub takes_lost : alloc_page (invlpg looked page) ≡ ok (lost, leaked)
    pub takes_frame : alloc_page leaked ≡ ok (frame, frames)
    pub maps : map_page frames page frame (portal_translate_protections p.prot) ≡ ok mapped
    pub records :
        page_hash.push sp.pages
          (bytes_of 8 page)
          (record { vaddr = page; frame = record { paddr = frame; refcnt = 1 } })
        ≡ some pages

  -- In a tree of separate portals, a page fault that reports that the page is not there, at an
  -- address from the base to base + limit of an anonymous portal that is not shared, takes two frames
  -- from the allocator, maps the page of the address to the second with the flags of the portal's
  -- protection, records it, returns 0 and leaves the first unused. This is where the page table gives
  -- an entry without the three flags of the fault handlers or none, and the two allocations, the
  -- mapping and the recording succeed.
  pub portal_resolve_fault-In :
      (sp : Space memory hash page_hash) (p : Portal) (addr error_code : ℕ)
      → Separate sp.portal_root
      → In p sp.portal_root
      → IsAnon p
      → has p.kind portal_req_share ≡ false
      → p.base ≤ addr
      → addr ≤ p.base + p.limit
      → addr < 2 ^ 64
      → bit_and error_code flag_p ≡ 0
      → (given : Supplies sp p (addr - addr % page_size))
      → portal_resolve_fault memory hash page_hash share_point_size with_table sp addr error_code
        ≡ ok (0, record sp { pages = given.pages; rest = given.mapped })
  unfolding portal_resolve_fault portal_fault_anon resolve_in map_anon
  portal_resolve_fault-In sp p addr error_code s i k alone lo hi w err g =
      let none_there : (bit_and error_code flag_p == 0) ≡ true = ground (arith, err) in
      let found = find_anon-In addr sp.portal_root p s i k lo hi in
      rw
        (
          portal_resolve_fault,
          floor-mask addr w,
          g.looks,
          none_there,
          portal_fault_anon,
          found,
          resolve_in,
          alone,
          floor addr w,
          g.takes_lost,
          map_anon,
          g.takes_frame,
          fault_flags-translate p,
          g.maps,
          g.records,
        )
        (rw g.unflagged refl)

  -- what the kernel does for a page of a shared portal whose share point has no frame for it yet
  pub record Shares (sp : Space memory hash page_hash) (p : Portal) (page : ℕ) : Type 0 where
    pub entry : Option ℕ
    pub looked : State
    pub lent : State
    pub frames : State
    pub mapped : State
    pub identifier : List ℕ
    pub index : ℕ
    pub point : SharePoint
    pub shared : ℕ
    pub frame : ℕ
    pub pages : page_hash.Table
    pub looks : page_entry sp.rest page ≡ ok (entry, looked)
    pub unflagged :
        check_entry memory hash page_hash share_point_size
          (elim entry as (λ x. ℕ) [ none ↦ 0 | some e ↦ e ])
        ≡ 0
    pub names : p.share_identifier ≡ some identifier
    pub has_point : hash.search sp.share_map identifier ≡ some index
    pub there : get_elem? sp.share_points index ≡ some point
    pub in_bounds :
        ltb (sub64 point.length share_point_size / 8) (sub64 page p.base / page_size) ≡ false
    pub no_frame : point.paddr (sub64 page p.base / page_size) ≡ 0
    pub takes_shared : alloc_page (invlpg looked page) ≡ ok (shared, lent)
    pub takes_frame : alloc_page lent ≡ ok (frame, frames)
    pub maps : map_page frames page frame (portal_translate_protections p.prot) ≡ ok mapped
    pub records :
        page_hash.push sp.pages
          (bytes_of 8 page)
          (record { vaddr = page; frame = record { paddr = frame; refcnt = 1 } })
        ≡ some pages

  -- A fault on a page that is there, such as a write to a page that is mapped read-only, returns 0
  -- although nothing was mapped, unless the entry has one of the three flags of its own.
  pub portal_resolve_fault-present :
      (sp : Space memory hash page_hash) (looked : State) (addr entry error_code : ℕ)
      → addr < 2 ^ 64
      → bit_and error_code flag_p ≢ 0
      → page_entry sp.rest (addr - addr % page_size) ≡ ok (some entry, looked)
      → has entry page_fault_cow ≡ false
      → has entry page_fault_share ≡ false
      → has entry page_fault_sp ≡ false
      → portal_resolve_fault memory hash page_hash share_point_size with_table sp addr error_code
        ≡ ok (0, record sp { rest = looked })
  unfolding portal_resolve_fault
  portal_resolve_fault-present sp looked addr entry error_code w err e cow share sup =
      let there : (bit_and error_code flag_p == 0) ≡ false = ground (arith, err) in
      rw (portal_resolve_fault, floor-mask addr w, e, there, cow, share, sup) refl

  -- the address is in an anonymous portal of the tree, or just behind its last one
  pub record Inside (sp : Space memory hash page_hash) (addr : ℕ) : Type 0 where
    pub portal : Portal
    pub member : In portal sp.portal_root
    pub anon : IsAnon portal
    pub low : portal.base ≤ addr
    pub high : addr ≤ portal.base + portal.limit

  anon-Inside :
      (sp : Space memory hash page_hash) (addr : ℕ)
      → ((p : Portal) → In p sp.portal_root → p.base + p.limit < 2 ^ 64)
      → Leaves
          (portal_fault_anon memory hash page_hash share_point_size sp addr)
          (λ r. (r.0 ≡ minus_one_int) ⊎ Inside sp addr)
  unfolding portal_fault_anon
  anon-Inside sp addr fits =
      Leaves-option (find_anon sp.portal_root addr) _ _ (λ e. Leaves-ok (inl refl))
        λ p e.
          let stops = find_anon_stops addr sp.portal_root p e in
          let within = covered p addr (fits p stops.0) stops.2 in
          record {
            at = λ r run. inr (record {
              portal = p;
              member = stops.0;
              anon = stops.1;
              low = within.0;
              high = within.1;
            });
          }

  resolve-Inside :
      (context : CurrentContext) (sp : Space memory hash page_hash) (addr error_code : ℕ)
      → ((p : Portal) → In p sp.portal_root → p.base + p.limit < 2 ^ 64)
      → bit_and error_code flag_p ≡ 0
      → Leaves
          (portal_resolve_fault memory hash page_hash share_point_size context sp addr error_code)
          (λ r. r.0 ≡ 0 → Inside sp addr)
  unfolding portal_resolve_fault
  resolve-Inside absent sp addr error_code fits err = Leaves-ok (λ z. absurd (omega arith))
  resolve-Inside without_table sp addr error_code fits err = Leaves-ok (λ z. absurd (omega arith))
  resolve-Inside with_table sp addr error_code fits err =
      let missing : (bit_and error_code flag_p == 0) ≡ true = ground (arith, err) in
      rw missing (
        Leaves-bind (page_entry sp.rest (bit_and addr frame_mask)) _ λ found e.
          Leaves-bind
            (portal_fault_anon memory hash page_hash share_point_size (record sp { rest = found.1 })
              addr)
            _
            λ r e'. Leaves-ok (λ z.
              elim ((anon-Inside (record sp { rest = found.1 }) addr fits).at r e') [
                | inl failed ↦
                    let test : (r.0 == minus_one_int) ≡ true = ground (arith, failed) in
                    absurd (omega (arith, (rw test at z)))
                | inr i ↦ record {
                  portal = i.portal;
                  member = i.member;
                  anon = i.anon;
                  low = i.low;
                  high = i.high;
                }
              ]))

  -- Where base + limit of each portal of the tree is less than 2^64, a page fault that reports that
  -- the page is not there returns 0 only at an address from the base to base + limit of an anonymous
  -- portal of the page table. base + limit is just behind the last address of the portal.
  pub portal_resolve_fault-Inside :
      (context : CurrentContext) (sp sp' : Space memory hash page_hash) (addr error_code : ℕ)
      → ((p : Portal) → In p sp.portal_root → p.base + p.limit < 2 ^ 64)
      → bit_and error_code flag_p ≡ 0
      → portal_resolve_fault memory hash page_hash share_point_size context sp addr error_code
        ≡ ok (0, sp')
      → Inside sp addr
  portal_resolve_fault-Inside context sp sp' addr error_code fits err run =
      (resolve-Inside context sp addr error_code fits err).at (0, sp') run refl

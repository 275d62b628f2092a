-- ===== src/Portal/Tests.antt =====
-- kernel/core/portal.c.
use rock.Base.{
  ℕ, sym, subst, ◌∙◌, Bool-cases, ◌+◌, ◌^◌, ◌≡◌, ◌<◌, ◌⊎◌, inl, inr, refl, Option, none, some, List,
  [], ◌∷◌, ok, fault, Leaves, arith, ◌==◌, if◌then◌else◌, bytes_of, ltb,
}
use rock.Fayt.Models.{rounding, assoc, assoc_of}
use rock.Portal.{
  portal_translate_protections, Page, Portal, PortalTree, leaf, node, PortalReq, PortalResp,
  PortalMemory, Space,
}
use rock.Portal.Fault.{
  with_table, find_anon, map_anon, resolve_in, portal_fault_anon, portal_resolve_fault,
}
use rock.Portal.Create.{
  Bst, portal_in, portal_handlers, portal_handle_share, new_share_point, set_up_link, portal,
}
use rock.Portal.Destroy.{portal_destroy}
use rock.Portal.Walk.{In, here, in_left, in_right, Separate}
use rock.Portal.Resolve.{
  Shares, Supplies, Inside, portal_resolve_fault-In, portal_resolve_fault-Inside,
}
use rock.Portal.Outcome.{Outcome, portal_in-Outcome}
use rock.Portal.Reach.{Reaches, started, by_portal, Reaches-portal_destroy}

-- the next free frame, and the pages that are mapped
abbrev Machine : Type 0
Machine = ℕ × List (ℕ × ℕ)

abbrev entry_of : List (ℕ × ℕ) → ℕ → Option ℕ
entry_of [] v = none
entry_of (e ∷ t) v = let rest = entry_of t v in if v == e.0 then some e.1 else rest

abbrev machine : PortalMemory
machine = record {
  State = Machine;
  alloc_page = λ s. ok (s.0, (s.0 + 4096, s.1));
  free_page = λ s p. ok s;
  map_page = λ s v p flags. ok (s.0, (v, p + 7) ∷ s.1);
  page_entry = λ s v. ok (entry_of s.1 v, s);
  invlpg = λ s v. s;
  behind = λ s i. 0;
  write_link = λ s v link. ok s;
  circular_queue_init = λ s a b c d. ok s;
}

-- BST_GENERIC_INSERT by the base
abbrev insert : PortalTree → Portal → PortalTree
insert leaf p = node leaf p leaf
insert (node l q r) p =
    let to_left = insert l p in
    let to_right = insert r p in if ltb p.base q.base then node to_left q r else node l q to_right

abbrev bst : Bst
bst = record { insert = insert }

abbrev nothing : Space machine assoc (assoc_of Page)
nothing = record {
  portal_root = leaf;
  pages = [];
  share_map = [];
  share_points = [];
  rest = (0x100000, []);
}

-- a portal that may be written, of three pages, anonymous
abbrev anon_req : PortalReq
anon_req = record {
  kind = 4;
  prot = 3;
  length = 0;
  share_identifier = [];
  share_type = 0;
  share_create = 0;
  morphology_addr = 0x400000;
  morphology_length = 0x3000;
  paddr = [];
}

abbrev anon_portal : Portal
anon_portal = record {
  kind = 4;
  prot = 3;
  share_identifier = none;
  base = 0x400000;
  limit = 0x3000;
  flags = 0;
  pages = none;
}

abbrev with_anon : Space machine assoc (assoc_of Page)
with_anon = record nothing { portal_root = node leaf anon_portal leaf }

portal_anon :
    portal_in machine assoc (assoc_of Page) rounding 16 32 bst nothing anon_req
    ≡ ok (0, record { base = 0x400000; limit = 0x3000; flags = 2 }, with_anon)
unfolding portal_in portal_handlers
portal_anon = refl

portal_in-Outcome_example :
    Leaves
      (portal_in machine assoc (assoc_of Page) rounding 16 32 bst nothing anon_req)
      (λ r. Outcome machine assoc (assoc_of Page) rounding 16 32 bst nothing anon_req r.0 r.1 r.2)
portal_in-Outcome_example =
    portal_in-Outcome machine assoc (assoc_of Page) rounding 16 32 bst nothing anon_req

only_one : (p : Portal) → In p with_anon.portal_root → anon_portal ≡ p
only_one p (here e) = e
only_one p (in_left i) = elim i [ ]
only_one p (in_right i) = elim i [ ]

with_anon-Separate : Separate with_anon.portal_root
with_anon-Separate = record {
  ordered = (record { below = λ p i. elim i [ ]; above = λ p i. elim i [ ] }, tt, tt);
  apart = λ p q i j. inl (sym (only_one p i) ∙ only_one q j);
  fits = λ p i. subst (λ x. x.base + x.limit < 2 ^ 64) (only_one p i) (omega arith);
}

-- a page fault in the second page
given : Supplies machine assoc (assoc_of Page) 16 with_anon anon_portal 0x401000
unfolding portal_translate_protections
given = record {
  looked = (0x100000, []);
  leaked = (0x101000, []);
  frames = (0x102000, []);
  mapped = (0x102000, (0x401000, 0x101007) ∷ []);
  lost = 0x100000;
  frame = 0x101000;
  pages =
      (
        bytes_of 8 0x401000,
        record { vaddr = 0x401000; frame = record { paddr = 0x101000; refcnt = 1 } },
      )
      ∷ [];
  entry = none;
  looks = refl;
  unflagged = refl;
  takes_lost = refl;
  takes_frame = refl;
  maps = refl;
  records = refl;
}

abbrev after_fault : Space machine assoc (assoc_of Page)
after_fault = record with_anon {
  pages =
      (
        bytes_of 8 0x401000,
        record { vaddr = 0x401000; frame = record { paddr = 0x101000; refcnt = 1 } },
      )
      ∷ [];
  rest = (0x102000, (0x401000, 0x101007) ∷ []);
}

portal_resolve_fault-In_example :
    portal_resolve_fault machine assoc (assoc_of Page) 16 with_table with_anon 0x401234 6
    ≡ ok (0, record with_anon { pages = given.pages; rest = given.mapped })
portal_resolve_fault-In_example =
    portal_resolve_fault-In machine assoc (assoc_of Page) 16 with_anon anon_portal 0x401234 6
      with_anon-Separate (here refl) refl refl (omega arith) (omega arith) (omega arith) refl given

-- the same, computed
fault_run :
    portal_resolve_fault machine assoc (assoc_of Page) 16 with_table with_anon 0x401234 6
    ≡ ok (0, after_fault)
unfolding portal_resolve_fault portal_fault_anon find_anon resolve_in map_anon
fault_run = refl

portal_resolve_fault-Inside_example : Inside machine assoc (assoc_of Page) 16 with_anon 0x401234
portal_resolve_fault-Inside_example =
    portal_resolve_fault-Inside machine assoc (assoc_of Page) 16 with_table with_anon after_fault
      0x401234 6 with_anon-Separate.fits refl fault_run

-- an anonymous portal that is shared
abbrev shared_req : PortalReq
shared_req = record anon_req { kind = 5; share_identifier = 97 ∷ []; share_create = 1 }

abbrev shared_portal : Portal
shared_portal = record anon_portal { kind = 5; share_identifier = some (97 ∷ []) }

abbrev with_shared : Space machine assoc (assoc_of Page)
with_shared = record nothing {
  portal_root = node leaf shared_portal leaf;
  share_map = (97 ∷ [], 0) ∷ [];
  share_points = record { identifier = 97 ∷ []; length = 19; paddr = λ i. 0 } ∷ [];
}

abbrev no_response : PortalResp
no_response = record { base = 0; limit = 0; flags = 0 }

portal_shared :
    portal machine assoc
      (assoc_of Page)
      rounding
      16
      32
      bst
      with_table
      nothing
      (some shared_req)
      (some no_response)
    ≡ ok (0, some (record { base = 0x400000; limit = 0x3000; flags = 2 }), with_shared)
unfolding portal portal_in portal_handlers portal_handle_share new_share_point set_up_link
portal_shared = refl

reached : Reaches machine assoc (assoc_of Page) rounding 16 32 bst with_shared
reached =
    by_portal nothing with_shared with_table (some shared_req) (some no_response)
      (some (record { base = 0x400000; limit = 0x3000; flags = 2 })) 0 (started nothing refl)
      portal_shared

-- a page fault in its first page
lent_frame : Shares machine assoc (assoc_of Page) 16 with_shared shared_portal 0x400000
unfolding portal_translate_protections
lent_frame = record {
  entry = none;
  looked = (0x100000, []);
  lent = (0x101000, []);
  frames = (0x102000, []);
  mapped = (0x102000, (0x400000, 0x101007) ∷ []);
  identifier = 97 ∷ [];
  index = 0;
  point = record { identifier = 97 ∷ []; length = 19; paddr = λ i. 0 };
  shared = 0x100000;
  frame = 0x101000;
  pages =
      (
        bytes_of 8 0x400000,
        record { vaddr = 0x400000; frame = record { paddr = 0x101000; refcnt = 1 } },
      )
      ∷ [];
  looks = refl;
  unflagged = refl;
  names = refl;
  has_point = refl;
  there = refl;
  in_bounds = refl;
  no_frame = refl;
  takes_shared = refl;
  takes_frame = refl;
  maps = refl;
  records = refl;
}

-- The insertion of the tests leaves what is in the tree and the new portal.
insert-In : (t : PortalTree) (p q : Portal) → In q (insert t p) → In q t ⊎ (p ≡ q)
insert-In leaf p q (here e) = inr e
insert-In leaf p q (in_left i) = elim i [ ]
insert-In leaf p q (in_right i) = elim i [ ]
insert-In (node l x r) p q i =
    let to_left = insert-In l p q in
    let to_right = insert-In r p q in
    elim (Bool-cases (ltb p.base x.base)) [
      | inl e ↦ in_node (λ j. to_left j) (λ j. inl j) (rw e at i)
      | inr e ↦ in_node (λ j. inl j) (λ j. to_right j) (rw e at i)
    ]
  where
    in_node :
        {l' r' : PortalTree}
        → (In q l' → In q l ⊎ (p ≡ q))
        → (In q r' → In q r ⊎ (p ≡ q))
        → In q (node l' x r')
        → In q (node l x r) ⊎ (p ≡ q)
    in_node f g (here e) = inl (here e)
    in_node f g (in_left j) = elim (f j) [ inl a ↦ inl (in_left a) | inr b ↦ inr b ]
    in_node f g (in_right j) = elim (g j) [ inl a ↦ inl (in_right a) | inr b ↦ inr b ]

Reaches-portal_destroy_example :
    portal_destroy machine with_shared.rest with_shared.portal_root ≡ fault
Reaches-portal_destroy_example =
    Reaches-portal_destroy machine assoc (assoc_of Page) rounding 16 32 bst with_shared insert-In
      reached (λ e. cc)

-- ===== src/Portal/Destroy.antt =====
-- kernel/core/portal.c: portal_destroy.
use rock.Base.{
  ◌+◌, ◌-◌, ◌%◌, ◌^◌, Option, none, some, List, [], ◌∷◌, ◌==◌, if◌then◌else◌, Run, ok, fault, ◌>>=◌,
}
use rock.Portal.{Page, PortalTree, leaf, node, PortalMemory}

module _ (memory : PortalMemory) where
  open memory use {State, free_page}

  -- the loop over the entries of `pages->data`; each frame has this page as its only holder
  unfoldable pub destroy_pages : State → List (Option Page) → Run State
  destroy_pages s [] = ok s
  destroy_pages s (none ∷ more) = destroy_pages s more
  destroy_pages s (some page ∷ more) = do
    s' ←
        if (page.frame.refcnt + 2 ^ 32 - 1) % 2 ^ 32 == 0
        then free_page s page.frame.paddr
        else ok s
    destroy_pages s' more

  -- `portal->pages` of NULL is a fault
  unfoldable pub portal_destroy : State → PortalTree → Run State
  portal_destroy s leaf = ok s
  portal_destroy s (node l portal r) = do
    s1 ← portal_destroy s l
    s2 ← portal_destroy s1 r
    elim portal.pages [ none ↦ fault | some pages ↦ destroy_pages s2 pages ]

-- ===== src/Portal/Walk.antt =====
-- The walk of portal_fault_anon down the tree of portals.
use rock.Base.{
  ℕ, ◌+◌, ◌^◌, ◌≤◌, ◌<◌, ◌≡◌, refl, sym, ap, ◌∙◌, ◌⊎◌, inl, inr, Bool, true, false, ◌&&◌, some, ltb,
  Bool-cases, arith, subst,
}
use rock.Portal.{Portal, PortalTree, leaf, node, has, portal_req_anon}
use rock.Portal.Fault.{covers, find_anon}

-- the portal stands in the tree
pub data In (p : Portal) : PortalTree → Type 0 where
  here : {l r : PortalTree} {q : Portal} → q ≡ p → In p (node l q r)
  in_left : {l r : PortalTree} {q : Portal} → In p l → In p (node l q r)
  in_right : {l r : PortalTree} {q : Portal} → In p r → In p (node l q r)

-- The tree is ordered by the bases.
pub record Splits (l : PortalTree) (q : Portal) (r : PortalTree) : Type 0 where
  pub below : (p : Portal) → In p l → p.base < q.base
  pub above : (p : Portal) → In p r → q.base < p.base

abbrev pub IsOrdered : PortalTree → Type 0
IsOrdered leaf = Unit
IsOrdered (node l q r) = Splits l q r × IsOrdered l × IsOrdered r

-- Two portals are one, or no address is in both: the last address of a portal is base + limit.
abbrev pub Apart : Portal → Portal → Type 0
Apart p q = (p ≡ q) ⊎ ((p.base + p.limit < q.base) ⊎ (q.base + q.limit < p.base))

pub record Separate (t : PortalTree) : Type 0 where
  pub ordered : IsOrdered t
  pub apart : (p q : Portal) → In p t → In q t → Apart p q
  pub fits : (p : Portal) → In p t → p.base + p.limit < 2 ^ 64

abbrev pub IsAnon : Portal → Type 0
IsAnon p = has p.kind portal_req_anon ≡ true

-- The test of the walk is that of the interval.
pub covered :
    (q : Portal) (addr : ℕ)
    → q.base + q.limit < 2 ^ 64
    → covers q addr ≡ true
    → (q.base ≤ addr) × (addr ≤ q.base + q.limit)
covered q addr h e = ground (arith, h, e)

covers_of :
    (q : Portal) (addr : ℕ)
    → q.base + q.limit < 2 ^ 64
    → q.base ≤ addr
    → addr ≤ q.base + q.limit
    → covers q addr ≡ true
covers_of q addr h lo hi = ground (arith, h, lo, hi)

both : (a b : Bool) → (a && b) ≡ true → (a ≡ true) × (b ≡ true)
both true b e = (refl, e)
both false b e = absurd cc

Separate-left : {l r : PortalTree} {q : Portal} → Separate (node l q r) → Separate l
Separate-left s = record {
  ordered = s.ordered.1;
  apart = λ p p' i i'. s.apart p p' (in_left i) (in_left i');
  fits = λ p i. s.fits p (in_left i);
}

Separate-right : {l r : PortalTree} {q : Portal} → Separate (node l q r) → Separate r
Separate-right s = record {
  ordered = s.ordered.2;
  apart = λ p p' i i'. s.apart p p' (in_right i) (in_right i');
  fits = λ p i. s.fits p (in_right i);
}

module _ (addr : ℕ) where
  same_when_both :
      (p q : Portal)
      → Apart p q
      → p.base ≤ addr
      → addr ≤ p.base + p.limit
      → q.base ≤ addr
      → addr ≤ q.base + q.limit
      → q ≡ p
  same_when_both p q a h1 h2 h3 h4 = elim a [
    | inl same ↦ sym same
    | inr far ↦ absurd (elim far [ inl x ↦ omega (arith, x) | inr x ↦ omega (arith, x) ])
  ]

  -- Where the walk does not stop at `q`, the portal it looks for is on the side it goes to.
  module _ {l r : PortalTree} (q p : Portal) (s : Separate (node l q r)) (k : IsAnon p)
      (lo : p.base ≤ addr) (hi : addr ≤ p.base + p.limit)
      (go : (has q.kind portal_req_anon && covers q addr) ≡ false) where
    not_here : ¬ (q ≡ p)
    not_here e =
        let yes_p : (has p.kind portal_req_anon && covers p addr) ≡ true =
          rw
            (
              k,
              covers_of p addr (subst (λ x. x.base + x.limit < 2 ^ 64) e (s.fits q (here refl))) lo
                  hi,
            )
            refl in
        let no_p : (has p.kind portal_req_anon && covers p addr) ≡ false =
          subst (λ x. (has x.kind portal_req_anon && covers x addr) ≡ false) e go in
        absurd cc

    on_left : In p (node l q r) → addr < q.base → In p l
    on_left (here e) below = absurd (not_here e)
    on_left (in_left i) below = i
    on_left (in_right i) below = absurd (omega (arith, s.ordered.0.above p i))

    on_right : In p (node l q r) → q.base ≤ addr → In p r
    on_right (here e) above = absurd (not_here e)
    on_right (in_left i) above =
        let before = s.ordered.0.below p i in
        elim (s.apart p q (in_left i) (here refl)) [
          | inl same ↦ absurd (not_here (sym same))
          | inr far ↦ absurd (elim far [ inl x ↦ omega (arith, x) | inr x ↦ omega (arith, x) ])
        ]
    on_right (in_right i) above = i

  -- In a tree of separate portals, the walk for an address in an anonymous portal stops there.
  pub find_anon-In :
      (t : PortalTree) (p : Portal)
      → Separate t
      → In p t
      → IsAnon p
      → p.base ≤ addr
      → addr ≤ p.base + p.limit
      → find_anon t addr ≡ some p
  unfolding find_anon
  find_anon-In leaf p s i k lo hi = elim i [ ]
  find_anon-In (node l q r) p s i k lo hi =
      elim (Bool-cases (has q.kind portal_req_anon && covers q addr)) [
        | inl stop ↦
            let within = covered q addr (s.fits q (here refl)) (both _ _ stop).1 in
            rw stop
              (ap some (same_when_both p q (s.apart p q i (here refl)) lo hi within.0 within.1))
        | inr go ↦ elim (Bool-cases (ltb addr q.base)) [
          | inl below ↦
              rw (go, below)
                (find_anon-In l p (Separate-left s)
                  (on_left q p s k lo hi go i (ground (arith, below))) k lo hi)
          | inr above ↦
              rw (go, above)
                (find_anon-In r p (Separate-right s)
                  (on_right q p s k lo hi go i (ground (arith, above))) k lo hi)
        ]
      ]

  -- A portal that the walk stops at is anonymous, in the tree, and has the address.
  pub find_anon_stops :
      (t : PortalTree) (p : Portal)
      → find_anon t addr ≡ some p
      → In p t × IsAnon p × (covers p addr ≡ true)
  unfolding find_anon
  find_anon_stops leaf p e = absurd cc
  find_anon_stops (node l q r) p e =
      elim (Bool-cases (has q.kind portal_req_anon && covers q addr)) [
        | inl stop ↦
            let found : find_anon (node l q r) addr ≡ some q = rw (find_anon, stop) refl in
            let same : q ≡ p = cc in
            let parts = both _ _ stop in
            (here same, subst IsAnon same parts.0, subst (λ x. covers x addr ≡ true) same parts.1)
        | inr go ↦ elim (Bool-cases (ltb addr q.base)) [
          | inl below ↦
              let on : find_anon (node l q r) addr ≡ find_anon l addr =
                rw (find_anon, go, below) refl in
              let rest = find_anon_stops l p (sym on ∙ e) in (in_left rest.0, rest.1, rest.2)
          | inr above ↦
              let on : find_anon (node l q r) addr ≡ find_anon r addr =
                rw (find_anon, go, above) refl in
              let rest = find_anon_stops r p (sym on ∙ e) in (in_right rest.0, rest.1, rest.2)
        ]
      ]

-- ===== src/Sched/Choice.antt =====
-- Which thread and which core the scheduling server chooses.
use rock.Base.{
  ℕ, zero, suc, ◌≡◌, refl, sym, ap, ◌∙◌, inl, inr, Bool, true, false, Option, none, some, List, [],
  ◌∷◌, int_lt, get_elem?, Bool-cases, arith, if◌then◌else◌, subst,
}
use rock.Sched.{
  Thread, SchedDescriptor, Tree, leaf, node, walk, Best, optimal_sched, traverse_and_queue,
}

-- the thread stands in the tree without children
pub data EndOf (t : Thread) : Tree → Type 0 where
  here : EndOf t (node leaf t leaf)
  to_left : {l r : Tree} {u : Thread} → EndOf t l → EndOf t (node l u r)
  to_right : {l r : Tree} {u : Thread} → EndOf t r → EndOf t (node l u r)

-- no less loaded than `d`
abbrev pub NotBelow : Best → SchedDescriptor → Type 0
NotBelow b d = int_lt b.desc.load d.load ≡ false

trans : (a b c : ℕ) → int_lt a c ≡ false → int_lt a b ≡ true → int_lt b c ≡ false
trans a b c h e = ground (arith, h, e)

moved :
    (b : Best) (x : SchedDescriptor)
    → int_lt b.desc.load x.load ≡ true
    → (ds : List SchedDescriptor)
    → optimal_sched (some (record { own = false; desc = x })) ds ≡ optimal_sched (some b) (x ∷ ds)
unfolding optimal_sched
moved b x more ds = rw (optimal_sched, more) refl

stayed :
    (b : Best) (x : SchedDescriptor)
    → int_lt b.desc.load x.load ≡ false
    → (ds : List SchedDescriptor) → optimal_sched (some b) ds ≡ optimal_sched (some b) (x ∷ ds)
unfolding optimal_sched
stayed b x less ds = rw (optimal_sched, less) refl

optimal-keeps :
    (b b' : Best) (ds : List SchedDescriptor) (d : SchedDescriptor)
    → optimal_sched (some b) ds ≡ some b'
    → NotBelow b d
    → NotBelow b' d
unfolding optimal_sched
optimal-keeps b b' [] d e h = let same : b ≡ b' = cc in subst (λ x. NotBelow x d) same h
optimal-keeps b b' (x ∷ ds) d e h = elim (Bool-cases (int_lt b.desc.load x.load)) [
  | inl more ↦
      let next : Best = record { own = false; desc = x } in
      optimal-keeps next b' ds d (moved b x more ds ∙ e) (trans b.desc.load x.load d.load h more)
  | inr less ↦ optimal-keeps b b' ds d (stayed b x less ds ∙ e) h
]

-- An end of the tree, unless the tree is empty.
walk-EndOf : (tree : Tree) (t : Thread) → walk tree ≡ some t → EndOf t tree
unfolding walk
walk-EndOf leaf t e = absurd cc
walk-EndOf (node leaf u leaf) t e =
    let same : u ≡ t = cc in subst (λ x. EndOf t (node leaf x leaf)) (sym same) here
walk-EndOf (node (node ll l lr) u leaf) t e = to_left (walk-EndOf (node ll l lr) t e)
walk-EndOf (node leaf u (node rl r rr)) t e = to_right (walk-EndOf (node rl r rr) t e)
walk-EndOf (node (node ll l lr) u (node rl r rr)) t e =
    elim (Bool-cases (int_lt r.vruntime l.vruntime)) [
      | inl right ↦
          let chosen : walk (node (node ll l lr) u (node rl r rr)) ≡ walk (node rl r rr) =
            rw (walk, right) refl in
          to_right (walk-EndOf (node rl r rr) t (sym chosen ∙ e))
      | inr left ↦
          let chosen : walk (node (node ll l lr) u (node rl r rr)) ≡ walk (node ll l lr) =
            rw (walk, left) refl in
          to_left (walk-EndOf (node ll l lr) t (sym chosen ∙ e))
    ]

abbrev has_thread : Tree → Bool
has_thread leaf = false
has_thread (node l u r) = true

walk-some : (tree : Tree) → has_thread tree ≡ true → (t : Thread) × (walk tree ≡ some t)
unfolding walk
walk-some leaf h = absurd cc
walk-some (node leaf u leaf) h = (u, refl)
walk-some (node (node ll l lr) u leaf) h = walk-some (node ll l lr) refl
walk-some (node leaf u (node rl r rr)) h = walk-some (node rl r rr) refl
walk-some (node (node ll l lr) u (node rl r rr)) h =
    elim (Bool-cases (int_lt r.vruntime l.vruntime)) [
      | inl right ↦ let (t, e) = walk-some (node rl r rr) refl in (t, rw (walk, right) e)
      | inr left ↦ let (t, e) = walk-some (node ll l lr) refl in (t, rw (walk, left) e)
    ]

-- On a tree with a thread, traverse_and_queue ends, returns 0 and gives a thread of the tree that has
-- no children.
pub traverse_and_queue-EndOf :
    (l : Tree) (u : Thread) (r : Tree)
    → (t : Thread) × (traverse_and_queue (node l u r) ≡ (0, some t)) × EndOf t (node l u r)
unfolding traverse_and_queue
traverse_and_queue-EndOf l u r =
    let (t, e) = walk-some (node l u r) refl in (t, ap (λ o. (0, o)) e, walk-EndOf (node l u r) t e)

least : (a : ℕ) → int_lt a a ≡ false
least a = ground arith

above : (a b : ℕ) → int_lt a b ≡ true → int_lt b a ≡ false
above a b e = ground (arith, e)

-- The loop of notify_enqueue_thread chooses a core such that no core has a higher load.
pub optimal_sched-NotBelow :
    (start : Option Best) (descs : List SchedDescriptor) (best : Best) (i : ℕ) (d : SchedDescriptor)
    → optimal_sched start descs ≡ some best
    → get_elem? descs i ≡ some d
    → NotBelow best d
unfolding optimal_sched
optimal_sched-NotBelow start [] best i d e at = absurd cc
optimal_sched-NotBelow none (x ∷ ds) best zero d e at =
    let same : x ≡ d = cc in
    subst (NotBelow best) same
      (optimal-keeps (record { own = false; desc = x }) best ds x e (least x.load))
optimal_sched-NotBelow none (x ∷ ds) best (suc i) d e at =
    optimal_sched-NotBelow (some (record { own = false; desc = x })) ds best i d e at
optimal_sched-NotBelow (some b) (x ∷ ds) best zero d e at =
    let same : x ≡ d = cc in
    subst (NotBelow best) same (elim (Bool-cases (int_lt b.desc.load x.load)) [
      | inl more ↦
          optimal-keeps (record { own = false; desc = x }) best ds x (moved b x more ds ∙ e)
            (least x.load)
      | inr less ↦ optimal-keeps b best (x ∷ ds) x e less
    ])
optimal_sched-NotBelow (some b) (x ∷ ds) best (suc i) d e at =
    optimal_sched-NotBelow
      (some (if int_lt b.desc.load x.load then record { own = false; desc = x } else b)) ds best i d
      e at

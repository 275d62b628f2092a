-- ===== src/Scheduler/Switch.antt =====
-- kernel/core/scheduler.c: what reschedule saves and enters.
use rock.Base.{
  ℕ, ◌≡◌, ◌≢◌, refl, sym, ap, ◌∙◌, subst, ◌⊎◌, inl, inr, true, false, Option, none, some, List,
  get_elem?, set, get_elem?-set_self, get_elem?-lt, get_elem?-set_ne, ok, fault, Leaves, Leaves-ok,
  Leaves-fault, Leaves-deadlock, Leaves-bind, Leaves-option, Leaves-weaken, Leaves-test,
}
use rock.Interrupts.Handler.{Registers}
use rock.Notification.{UserContext, notification_dispatch}
use rock.Scheduler.{
  TaskContext, Machine, Vector, Sched, Switched, returns, enters, ucontext_of, saved, with_regs,
  save_current, enter_next, next_of, switch_to, reschedule,
}

pub Option-cases : {A : Type 0} (o : Option A) → (o ≡ none) ⊎ ((a : A) × (o ≡ some a))
Option-cases none = inl refl
Option-cases (some a) = inr (a, refl)

set-found :
    {A : Type 0} (xs : List A) (k i : ℕ) (old v d : A)
    → get_elem? xs k ≡ some old
    → some k ≡ some i
    → get_elem? (set xs k v) i ≡ some d
    → v ≡ d
set-found xs k i old v d held same found =
    let here : get_elem? (set xs k v) k ≡ some v =
      get_elem?-set_self xs k v (get_elem?-lt xs k held) in
    let one : k ≡ i = cc in
    let there : get_elem? (set xs k v) i ≡ some v =
      subst (λ j. get_elem? (set xs k v) j ≡ some v) one here in
    cc

-- the registers that reschedule would enter for the context
abbrev pub Resumes : TaskContext → Registers → Type 0
Resumes c regs = (u : Option UserContext) → ucontext_of c ≡ ok u → (saved c u).1 ≡ regs

Resumes-none :
    (c : TaskContext) (regs : Registers)
    → c.notification.ucontext ≡ none
    → Resumes (with_regs c regs) regs
Resumes-none c regs none_there u e =
    let at : ucontext_of (with_regs c regs) ≡ ok none = simp (ucontext_of, with_regs, none_there) in
    let same : none ≡ u = cc in
    subst (λ x. (saved (with_regs c regs) x).1 ≡ regs) same simp (with_regs, saved, none_there)

Resumes-some :
    (c : TaskContext) (regs : Registers) (i : ℕ) (u0 : UserContext)
    → c.notification.ucontext ≡ some i
    → get_elem? c.notification.ucontexts i ≡ some u0
    → Resumes (with_regs c regs) regs
Resumes-some c regs i u0 there held u e =
    let put =
      get_elem?-set_self c.notification.ucontexts i (record u0 { regs = regs })
        (get_elem?-lt c.notification.ucontexts i held) in
    let at : ucontext_of (with_regs c regs) ≡ ok (some (record u0 { regs = regs })) =
      simp (ucontext_of, with_regs, there, held, put) in
    let same : some (record u0 { regs = regs }) ≡ u = cc in
    subst (λ x. (saved (with_regs c regs) x).1 ≡ regs) same refl

with_regs-Resumes :
    (c : TaskContext) (regs : Registers) (u : Option UserContext)
    → ucontext_of c ≡ ok u
    → Resumes (with_regs c regs) regs
with_regs-Resumes c regs u e = elim (Option-cases c.notification.ucontext) [
  | inl there ↦ Resumes-none c regs there
  | inr (i, there) ↦ elim (Option-cases (get_elem? c.notification.ucontexts i)) [
    | inl gone ↦ let faults : ucontext_of c ≡ fault = simp (ucontext_of, there, gone) in absurd cc
    | inr (u0, held) ↦ Resumes-some c regs i u0 there held
  ]
]

module _ (machine : Machine) (vector : Vector) where
  -- what save_current leaves: the others as they were, and the current one to be resumed
  pub record Saves (before after : Sched machine vector) (regs : Registers) : Type 0 where
    pub same_core : after.core ≡ before.core
    pub same_lock : after.locked ≡ before.locked
    pub same_others :
        (i : ℕ)
        → before.core.current_context ≢ some i
        → get_elem? after.contexts i ≡ get_elem? before.contexts i
    pub resumes :
        (i : ℕ) (c : TaskContext)
        → before.core.current_context ≡ some i
        → get_elem? after.contexts i ≡ some c
        → Resumes c regs

  pub save_current-Saves :
      (sc : Sched machine vector) (regs : Registers)
      → Leaves (save_current machine vector sc regs) (λ sc'. Saves sc sc' regs)
  unfolding save_current
  save_current-Saves sc regs =
      Leaves-option sc.core.current_context _ _
        (λ e. Leaves-ok (record {
          same_core = refl;
          same_lock = refl;
          same_others = λ i ne. refl;
          resumes = λ i c at there. absurd cc;
        }))
        λ current e.
          Leaves-option (get_elem? sc.contexts current) _ _ (λ n. Leaves-fault)
            λ c held. Leaves-bind (ucontext_of c) _ λ u at_u.
              Leaves-bind (machine.fpu_save sc.rest (saved c u).0) _ λ rest e'. Leaves-ok (record {
                same_core = refl;
                same_lock = refl;
                same_others = λ i ne.
                    get_elem?-set_ne sc.contexts current i _ (λ same. ne (e ∙ ap some same));
                resumes = λ i d at there.
                    subst (λ x. Resumes x regs)
                      (set-found sc.contexts current i c _ d held (sym e ∙ at) there)
                      (with_regs-Resumes c regs u at_u);
              })

  -- what enter_next leaves
  pub record Enters (before after : Sched machine vector) (next : ℕ) (s : Switched) : Type 0 where
    pub same_contexts : after.contexts ≡ before.contexts
    pub open_lock : after.locked ≡ false
    pub is_current : after.core.current_context ≡ some next
    pub same_queues :
        (after.core.thread_queue ≡ before.core.thread_queue)
        × (after.core.delivery_stack ≡ before.core.delivery_stack)
    pub context : TaskContext
    pub there : get_elem? before.contexts next ≡ some context
    pub ucontext : Option UserContext
    pub found : ucontext_of context ≡ ok ucontext
    pub entered : s ≡ enters (saved context ucontext).1
    pub unloaded : machine.State
    pub loaded : machine.State
    pub loads : machine.fpu_rstor unloaded (saved context ucontext).0 ≡ ok loaded

  enter_next-Enters :
      (sc : Sched machine vector) (next : ℕ)
      → Leaves (enter_next machine vector sc next) (λ r. Enters sc r.1 next r.0)
  unfolding enter_next
  enter_next-Enters sc next =
      Leaves-option (get_elem? sc.contexts next) _ _ (λ n. Leaves-fault)
        λ c held. Leaves-bind (ucontext_of c) _ λ u at_u.
          Leaves-bind (machine.swap_tables sc.rest c.page_table) _ λ s1 e1.
            Leaves-bind (machine.fpu_rstor s1 (saved c u).0) _ λ s2 e2. Leaves-ok (record {
              same_contexts = refl;
              open_lock = refl;
              is_current = refl;
              same_queues = (refl, refl);
              context = c;
              there = held;
              ucontext = u;
              found = at_u;
              entered = refl;
              unloaded = s1;
              loaded = s2;
              loads = e2;
            })

  -- how switch_to comes to its end
  pub record Steps (fuel : ℕ) (before : Sched machine vector) (regs : Registers) (next : ℕ)
      (s : Switched) (after : Sched machine vector) : Type 0 where
    pub old : TaskContext
    pub held : get_elem? before.contexts next ≡ some old
    pub result : ℕ × rock.Notification.Context
    pub dispatches : notification_dispatch fuel old.notification ≡ ok result
    pub middle : Sched machine vector
    pub saves :
        Saves
          (record before {
            contexts = set before.contexts next (record old { notification = result.1 });
          })
          middle
          regs
    pub last : Enters middle after next s

  pub switch_to-Steps :
      (fuel : ℕ) (sc : Sched machine vector) (regs : Registers) (next : ℕ)
      → Leaves (switch_to machine vector fuel sc regs next) (λ r. Steps fuel sc regs next r.0 r.1)
  unfolding switch_to
  switch_to-Steps fuel sc regs next =
      Leaves-option (get_elem? sc.contexts next) _ _ (λ n. Leaves-fault)
        λ c at. Leaves-bind (notification_dispatch fuel c.notification) _ λ r e.
          let dispatched : Sched machine vector = record sc {
            contexts = set sc.contexts next (record c { notification = r.1 });
          } in
          Leaves-bind (save_current machine vector dispatched regs) _ λ m e'.
            Leaves-weaken (enter_next-Enters m next) λ x h. record {
              old = c;
              held = at;
              result = r;
              dispatches = e;
              middle = m;
              saves = (save_current-Saves dispatched regs).at m e';
              last = h;
            }

  -- A context that was not the current one has what was dispatched to it.
  pub Steps-other :
      (fuel : ℕ) (before after : Sched machine vector) (regs : Registers) (next : ℕ) (s : Switched)
      (steps : Steps fuel before regs next s after)
      → before.core.current_context ≢ some next
      → get_elem? steps.middle.contexts next
        ≡ some (record steps.old { notification = steps.result.1 })
  Steps-other fuel before after regs next s steps ne =
      steps.saves.same_others next ne
      ∙ get_elem?-set_self before.contexts next _ (get_elem?-lt before.contexts next steps.held)

  -- how reschedule ends: no context is to run, or the next one is switched to
  pub data Outcome (fuel : ℕ) (before : Sched machine vector) (regs : Registers)
      : Switched → Sched machine vector → Type 0 where
    idle :
        (next_of machine vector before.core).0 ≡ none
        → Outcome fuel before regs returns
            (record before { core = (next_of machine vector before.core).1 })
    switched :
        (next : ℕ) (s : Switched) (after : Sched machine vector)
        → (next_of machine vector before.core).0 ≡ some next
        → Steps fuel
            (record before { core = (next_of machine vector before.core).1; locked = true })
            regs
            next
            s
            after
        → Outcome fuel before regs s after

  pub reschedule-Outcome :
      (fuel : ℕ) (sc : Sched machine vector) (regs : Registers)
      → Leaves
          (reschedule machine vector fuel sc regs)
          (λ r. (sc.locked ≡ false) × Outcome fuel sc regs r.0 r.1)
  unfolding reschedule
  reschedule-Outcome fuel sc regs =
      Leaves-test sc.locked _ _ (λ e. Leaves-deadlock)
        λ unlocked.
          Leaves-option (next_of machine vector sc.core).0 _ _ (λ n. Leaves-ok (unlocked, idle n))
            λ next e.
              Leaves-weaken
                (switch_to-Steps fuel
                  (record sc { core = (next_of machine vector sc.core).1; locked = true }) regs
                  next)
                λ r h. (unlocked, switched next r.0 r.1 e h)

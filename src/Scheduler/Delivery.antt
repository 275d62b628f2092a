-- ===== src/Scheduler/Delivery.antt =====
-- kernel/core/scheduler.c: how reschedule ends, and what becomes of a notification it delivers.
use rock.Base.{
  ℕ, ◌≡◌, ◌≢◌, refl, sym, ap, ◌∙◌, subst, inl, inr, Bool-cases, true, false, none, some, get_elem?,
  set, get_elem?-set_self, get_elem?-lt, ok, fault, deadlock, Leaves, Leaves-weaken,
}
use rock.Interrupts.Handler.{Registers}
use rock.Notification.{UserContext, notification_dispatch}
use rock.Notification.Dispatch.{dispatch-dispatch}
use rock.Notification.Fpu.{NoFpu, NoFpu-get_elem?, notification_dispatch-NoFpu}
use rock.Scheduler.{
  TaskContext, Machine, Vector, Sched, Switched, returns, enters, ucontext_of, saved, next_of,
  save_current, enter_next, switch_to, reschedule,
}
use rock.Scheduler.Switch.{
  Option-cases, save_current-Saves, Steps, Steps-other, Outcome, idle, switched, reschedule-Outcome,
}
use rock.Scheduler.Resume.{next_of-current}

module _ (machine : Machine) (vector : Vector) where
  -- Nothing is to run and nothing but the queues has changed, or the context that was chosen runs.
  pub data Settled (before : Sched machine vector) : Switched → Sched machine vector → Type 0 where
    waits :
        (after : Sched machine vector)
        → (next_of machine vector before.core).0 ≡ none
        → after.contexts ≡ before.contexts
        → after.core.current_context ≡ before.core.current_context
        → Settled before returns after
    runs :
        (next : ℕ) (entered : Registers) (after : Sched machine vector)
        → (next_of machine vector before.core).0 ≡ some next
        → after.core.current_context ≡ some next
        → Settled before (enters entered) after

  Settled-Outcome :
      (fuel : ℕ) (sc after : Sched machine vector) (regs : Registers) (s : Switched)
      → sc.locked ≡ false
      → Outcome machine vector fuel sc regs s after
      → (after.locked ≡ false) × Settled sc s after
  Settled-Outcome fuel sc after regs s unlocked (idle n) =
      (unlocked, waits _ n refl (next_of-current machine vector sc.core))
  Settled-Outcome fuel sc after regs s unlocked (switched next t to chosen steps) = (
    steps.last.open_lock,
    subst (λ x. Settled sc x after) (sym steps.last.entered)
        (runs next _ after chosen steps.last.is_current),
  )

  -- Where reschedule returns or enters a context, its lock is open, and either no context was to
  -- run, the contexts are as they were and so is the current one, or the context that was chosen is
  -- the current one.
  pub reschedule-Settled :
      (fuel : ℕ) (sc : Sched machine vector) (regs : Registers)
      → Leaves
          (reschedule machine vector fuel sc regs)
          (λ r. (r.1.locked ≡ false) × Settled sc r.0 r.1)
  reschedule-Settled fuel sc regs =
      Leaves-weaken (reschedule-Outcome machine vector fuel sc regs)
        λ r h. Settled-Outcome fuel sc r.1 regs r.0 h.0 h.1

  Outcome-chosen :
      (fuel : ℕ) (sc after : Sched machine vector) (regs : Registers) (s : Switched) (next : ℕ)
      → Outcome machine vector fuel sc regs s after
      → (next_of machine vector sc.core).0 ≡ some next
      → Steps machine vector fuel
          (record sc { core = (next_of machine vector sc.core).1; locked = true })
          regs
          next
          s
          after
  Outcome-chosen fuel sc after regs s next (idle n) chosen = absurd cc
  Outcome-chosen fuel sc after regs s next (switched k t to picked steps) chosen =
      let same : k ≡ next = cc in
      subst
        (λ i.
          Steps machine vector fuel
            (record sc { core = (next_of machine vector sc.core).1; locked = true }) regs i s after)
        same steps

  run_switches :
      (fuel : ℕ) (sc after : Sched machine vector) (regs : Registers) (s : Switched) (next : ℕ)
      → reschedule machine vector fuel sc regs ≡ ok (s, after)
      → (next_of machine vector sc.core).0 ≡ some next
      → Steps machine vector fuel
          (record sc { core = (next_of machine vector sc.core).1; locked = true })
          regs
          next
          s
          after
  run_switches fuel sc after regs s next run chosen =
      Outcome-chosen fuel sc after regs s next
        ((reschedule-Outcome machine vector fuel sc regs).at (s, after) run).1 chosen

  -- A reschedule whose choice is the current context goes on where it was interrupted, whatever
  -- notification it has delivered to it: the registers of the handler are overwritten.
  pub reschedule-current :
      (fuel : ℕ) (sc after : Sched machine vector) (regs : Registers) (s : Switched) (next : ℕ)
      → (next_of machine vector sc.core).0 ≡ some next
      → sc.core.current_context ≡ some next
      → reschedule machine vector fuel sc regs ≡ ok (s, after)
      → s ≡ enters regs
  reschedule-current fuel sc after regs s next chosen is_current run =
      let steps = run_switches fuel sc after regs s next run chosen in
      let kept =
        steps.saves.resumes next steps.last.context
          (next_of-current machine vector sc.core ∙ is_current) steps.last.there in
      steps.last.entered ∙ ap enters (kept steps.last.ucontext steps.last.found)

  -- The context that was chosen, and was not the current one, has what was dispatched to it.
  left-dispatched :
      (fuel : ℕ) (sc sc1 : Sched machine vector) (regs : Registers) (s : Switched) (next : ℕ)
      (c c' : TaskContext) (r : ℕ × rock.Notification.Context)
      → (next_of machine vector sc.core).0 ≡ some next
      → sc.core.current_context ≢ some next
      → get_elem? sc.contexts next ≡ some c
      → notification_dispatch fuel c.notification ≡ ok r
      → reschedule machine vector fuel sc regs ≡ ok (s, sc1)
      → get_elem? sc1.contexts next ≡ some c'
      → r.1 ≡ c'.notification
  left-dispatched fuel sc sc1 regs s next c c' r chosen ne there sends run left =
      let steps = run_switches fuel sc sc1 regs s next run chosen in
      let held = steps.held in
      let old : c ≡ steps.old = cc in
      let sends_old : notification_dispatch fuel steps.old.notification ≡ ok r =
        subst (λ x. notification_dispatch fuel x.notification ≡ ok r) old sends in
      let dispatches = steps.dispatches in
      let result : steps.result ≡ r = cc in
      let others =
        Steps-other machine vector fuel
          (record sc { core = (next_of machine vector sc.core).1; locked = true }) sc1 regs next s
          steps (λ e. ne (sym (next_of-current machine vector sc.core) ∙ e)) in
      let left_there : get_elem? steps.middle.contexts next ≡ some c' =
        subst (λ xs. get_elem? xs next ≡ some c') steps.last.same_contexts left in
      let is : some (record steps.old { notification = steps.result.1 }) ≡ some c' =
        sym others ∙ left_there in
      ap (λ x. x.1) (sym result) ∙ notification_of is
    where
      notification_of : {a b : TaskContext} → some a ≡ some b → a.notification ≡ b.notification
      notification_of {a} {b} e = let same : a ≡ b = cc in ap (λ x. x.notification) same

  -- After a reschedule that delivered a notification to the context it chose, which was not the
  -- current one, the next one that chooses that context, as it was left, spins for ever.
  pub reschedule-deadlock :
      (fuel fuel' : ℕ) (sc sc1 sc2 : Sched machine vector) (regs regs' : Registers) (s : Switched)
      (next : ℕ) (c c' : TaskContext) (delivered : rock.Notification.Context)
      → (next_of machine vector sc.core).0 ≡ some next
      → sc.core.current_context ≢ some next
      → get_elem? sc.contexts next ≡ some c
      → notification_dispatch fuel c.notification ≡ ok (0, delivered)
      → reschedule machine vector fuel sc regs ≡ ok (s, sc1)
      → get_elem? sc1.contexts next ≡ some c'
      → get_elem? sc2.contexts next ≡ some c'
      → (next_of machine vector sc2.core).0 ≡ some next
      → reschedule machine vector fuel' sc2 regs' ≡ deadlock
  unfolding reschedule switch_to
  reschedule-deadlock fuel fuel' sc sc1 sc2 regs regs' s next c c' delivered chosen ne there sends
        run left later chosen' =
      elim (Bool-cases sc2.locked) [
        | inl held ↦ simp (reschedule, held)
        | inr free ↦
            let spins : notification_dispatch fuel' c'.notification ≡ deadlock =
              subst (λ x. notification_dispatch fuel' x ≡ deadlock)
                (left-dispatched fuel sc sc1 regs s next c c' (0, delivered) chosen ne there sends
                  run left)
                (dispatch-dispatch fuel fuel' c.notification delivered sends) in
            simp (reschedule, switch_to, free, chosen', later, spins)
      ]

  enter_next-NoFpu :
      (sc : Sched machine vector) (next i : ℕ) (c : TaskContext)
      → ((m : machine.State) → machine.fpu_rstor m 0 ≡ fault)
      → ((m : machine.State) (t : ℕ) → (m' : machine.State) × (machine.swap_tables m t ≡ ok m'))
      → get_elem? sc.contexts next ≡ some c
      → c.notification.ucontext ≡ some i
      → NoFpu c.notification.ucontexts
      → enter_next machine vector sc next ≡ fault
  unfolding enter_next
  enter_next-NoFpu sc next i c faults swaps there in_handler bare =
      elim (Option-cases (get_elem? c.notification.ucontexts i)) [
        | inl gone ↦ simp (enter_next, there, ucontext_of, in_handler, gone)
        | inr (u, held) ↦
            let no_area : u.fpu_context ≡ 0 =
              NoFpu-get_elem? c.notification.ucontexts i u bare held in
            let swapped = swaps sc.rest c.page_table in
            let fails = faults swapped.0 in
            simp
              (enter_next, there, ucontext_of, in_handler, held, saved, no_area, swapped.1, fails)
      ]

  -- Where no area can be loaded from address 0 and page tables can be switched, reschedule ends in a
  -- fault if its lock is open, it chooses a context that is not the current one and whose user
  -- contexts have no area, the dispatch delivers a notification to that context, so that it is in
  -- a user context, and the interrupted context can be saved.
  pub reschedule-NoFpu :
      (fuel : ℕ) (sc kept : Sched machine vector) (regs : Registers) (next i : ℕ) (c : TaskContext)
      (delivered : rock.Notification.Context)
      → ((m : machine.State) → machine.fpu_rstor m 0 ≡ fault)
      → ((m : machine.State) (t : ℕ) → (m' : machine.State) × (machine.swap_tables m t ≡ ok m'))
      → sc.locked ≡ false
      → (next_of machine vector sc.core).0 ≡ some next
      → sc.core.current_context ≢ some next
      → get_elem? sc.contexts next ≡ some c
      → NoFpu c.notification.ucontexts
      → notification_dispatch fuel c.notification ≡ ok (0, delivered)
      → delivered.ucontext ≡ some i
      → save_current machine vector
          (record sc {
            core = (next_of machine vector sc.core).1;
            locked = true;
            contexts = set sc.contexts next (record c { notification = delivered });
          })
          regs
        ≡ ok kept
      → reschedule machine vector fuel sc regs ≡ fault
  unfolding reschedule switch_to
  reschedule-NoFpu fuel sc kept regs next i c delivered faults swaps free chosen ne there bare sends
        in_handler saves =
      let before : Sched machine vector = record sc {
        core = (next_of machine vector sc.core).1;
        locked = true;
        contexts = set sc.contexts next (record c { notification = delivered });
      } in
      let others =
        ((save_current-Saves machine vector before regs).at kept saves).same_others next
          (λ e. ne (sym (next_of-current machine vector sc.core) ∙ e)) in
      let still : get_elem? kept.contexts next ≡ some (record c { notification = delivered }) =
        others ∙ get_elem?-set_self sc.contexts next _ (get_elem?-lt sc.contexts next there) in
      let still_bare : NoFpu delivered.ucontexts =
        (notification_dispatch-NoFpu fuel c.notification bare).at (0, delivered) sends in
      let ends =
        enter_next-NoFpu kept next i (record c { notification = delivered }) faults swaps still
          in_handler still_bare in
      simp (reschedule, switch_to, free, chosen, there, sends, saves, ends)

-- ===== src/Scheduler/Resume.antt =====
-- kernel/core/scheduler.c: the contexts that reschedule leaves and comes back to.
use rock.Base.{ℕ, ◌≡◌, ◌≢◌, sym, ap, ◌∙◌, subst, inl, inr, true, some, get_elem?, ok, minus_one_int}
use rock.Interrupts.Handler.{Registers}
use rock.Notification.{notification_dispatch}
use rock.Notification.Quiet.{NothingPending, dispatch-NothingPending}
use rock.Scheduler.{
  TaskContext, Machine, Vector, Sched, CpuLocal, Switched, enters, next_of, reschedule,
}
use rock.Scheduler.Switch.{
  Option-cases, Resumes, Steps-other, Outcome, idle, switched, reschedule-Outcome,
}

module _ (machine : Machine) (vector : Vector) where
  pub next_of-current :
      (core : CpuLocal) → (next_of machine vector core).1.current_context ≡ core.current_context
  unfolding next_of
  next_of-current core = elim (Option-cases (vector.pop core.delivery_stack)) [
    | inr (x, e) ↦ simp (next_of, e)
    | inl e ↦ elim (Option-cases (vector.pop core.thread_queue)) [
      | inr (x, e') ↦ simp (next_of, e, e')
      | inl e' ↦ simp (next_of, e, e')
    ]
  ]

  -- what is saved of the context that was interrupted
  after-Resumes :
      (fuel : ℕ) (sc after : Sched machine vector) (regs entered : Registers) (current : ℕ)
      → Outcome machine vector fuel sc regs (enters entered) after
      → sc.core.current_context ≡ some current
      → (c : TaskContext) → get_elem? after.contexts current ≡ some c
      → Resumes c regs
  after-Resumes fuel sc after regs entered current (switched next s to chosen steps) at c there =
      steps.saves.resumes current c (next_of-current sc.core ∙ at)
        (subst (λ xs. get_elem? xs current ≡ some c) steps.last.same_contexts there)

  -- With nothing to deliver, the registers that the next context was to be resumed with are entered.
  enters-Resumes :
      (fuel : ℕ) (sc after : Sched machine vector) (regs other : Registers) (s : Switched)
      (next : ℕ) (c : TaskContext)
      → Outcome machine vector fuel sc other s after
      → (next_of machine vector sc.core).0 ≡ some next
      → sc.core.current_context ≢ some next
      → get_elem? sc.contexts next ≡ some c
      → NothingPending c.notification
      → Resumes c regs
      → s ≡ enters regs
  enters-Resumes fuel sc after regs other s next c (idle n) chosen ne there quiet resumes =
      absurd cc
  enters-Resumes fuel sc after regs other s next c (switched k t to picked steps) chosen ne there
        quiet resumes =
      let same : next ≡ k = cc in
      let there_k : get_elem? sc.contexts k ≡ some c =
        subst (λ i. get_elem? sc.contexts i ≡ some c) same there in
      let old : c ≡ steps.old = cc in
      let quiet_old : notification_dispatch fuel steps.old.notification
          ≡ ok (minus_one_int, c.notification) =
        subst (λ x. notification_dispatch fuel x.notification ≡ ok (minus_one_int, c.notification))
          old (dispatch-NothingPending fuel c.notification quiet) in
      let dispatches = steps.dispatches in
      let sent : steps.result ≡ (minus_one_int, c.notification) = cc in
      let put_in : TaskContext → rock.Notification.Context → TaskContext =
        λ x n. record x { notification = n } in
      let kept : put_in steps.old steps.result.1 ≡ c =
        ap (λ r. put_in steps.old r.1) sent ∙ ap (λ x. put_in x c.notification) (sym old) in
      let others : get_elem? steps.middle.contexts k ≡ some c =
        Steps-other machine vector fuel
          (record sc { core = (next_of machine vector sc.core).1; locked = true }) after other k s
          steps (λ e. ne (sym (next_of-current sc.core) ∙ e ∙ ap some (sym same)))
        ∙ ap some kept in
      let last = steps.last.there in
      let is : c ≡ steps.last.context = cc in
      steps.last.entered
      ∙ ap enters (subst (λ x. Resumes x regs) is resumes steps.last.ucontext steps.last.found)

  -- A context that reschedule takes off a core is resumed with its registers: where reschedule
  -- interrupts the current context at `regs`, and later, with the context as it was left, not
  -- running and with nothing to deliver, a reschedule whose choice it is returns, the registers
  -- that are entered are `regs`.
  pub reschedule-resumes :
      (fuel fuel' : ℕ) (sc sc1 sc2 sc3 : Sched machine vector) (regs entered other : Registers)
      (s : Switched) (current : ℕ) (c : TaskContext)
      → sc.core.current_context ≡ some current
      → reschedule machine vector fuel sc regs ≡ ok (enters entered, sc1)
      → get_elem? sc1.contexts current ≡ some c
      → get_elem? sc2.contexts current ≡ some c
      → (next_of machine vector sc2.core).0 ≡ some current
      → sc2.core.current_context ≢ some current
      → NothingPending c.notification
      → reschedule machine vector fuel' sc2 other ≡ ok (s, sc3)
      → s ≡ enters regs
  reschedule-resumes fuel fuel' sc sc1 sc2 sc3 regs entered other s current c at run left there
        chosen ne quiet run' =
      enters-Resumes fuel' sc2 sc3 regs other s current c
        ((reschedule-Outcome machine vector fuel' sc2 other).at (s, sc3) run').1 chosen ne there
        quiet
        (after-Resumes fuel sc sc1 regs entered current
          ((reschedule-Outcome machine vector fuel sc regs).at (enters entered, sc1) run).1 at c
          left)

-- ===== src/Notification/Dispatch.antt =====
-- What notification_dispatch delivers, and what it leaves behind.
use rock.Base.{
  ℕ, zero, suc, ◌+◌, ◌-◌, ◌≡◌, refl, ◌∙◌, true, some, ◌==◌, get_elem?, ok, Leaves, Leaves-ok,
  Leaves-fault, Leaves-deadlock, Leaves-test, Leaves-bind, Leaves-option, Leaves-weaken, deadlock,
  arith,
}
use rock.Notification.Queue.{
  notification_mask, NotificationQueue, slot_of, pop_loop, notification_pop, notification_max,
}
use rock.Notification.{
  Context, UserContext, get_ucontext, free_stack, deliver, dispatch_loop, notification_dispatch,
}

-- The lock is held and the queue is active.
pub record Held (c : Context) : Type 0 where
  pub queue : NotificationQueue
  pub there : c.queue ≡ some queue
  pub active : queue.active ≡ true
  pub locked : queue.locked ≡ true

pop_same :
    (fuel : ℕ) (q : NotificationQueue) (notnum : ℕ)
    → Leaves
        (notification_pop fuel q notnum)
        (λ r. (r.1.active ≡ q.active) × (r.1.locked ≡ q.locked))
unfolding notification_pop
pop_same fuel q notnum = Leaves-bind (slot_of q notnum) _ λ l e.
    Leaves-bind (pop_loop fuel l) _ λ root e'.
      Leaves-option root _ _ (λ n. Leaves-fault)
        λ x s. Leaves-bind (notification_mask (notnum - 1)) _ λ m e''. Leaves-ok (refl, refl)

deliver-Held :
    (fuel : ℕ) (c : Context) (q : NotificationQueue) (idx : ℕ) (u : UserContext) (notnum : ℕ)
    → q.active ≡ true
    → q.locked ≡ true
    → Leaves (deliver fuel c q idx u notnum) (λ r. Held r.1)
unfolding deliver
deliver-Held fuel c q idx u notnum a l = Leaves-bind (notification_pop fuel q notnum) _ λ r e.
    let same = (pop_same fuel q notnum).at r e in
    Leaves-option (free_stack 0 c.stacks) _ _
      (λ n.
        Leaves-ok (record { queue = r.1; there = refl; active = same.0 ∙ a; locked = same.1 ∙ l }))
      λ stack s.
        Leaves-option (get_elem? c.actions (notnum - 1)) _ _ (λ n. Leaves-fault)
          λ action t.
            Leaves-ok
              (record { queue = r.1; there = refl; active = same.0 ∙ a; locked = same.1 ∙ l })

dispatch_loop-Held :
    (fuel : ℕ) (c : Context) (q : NotificationQueue) (idx : ℕ) (u : UserContext) (left notnum : ℕ)
    → c.queue ≡ some q
    → q.active ≡ true
    → q.locked ≡ true
    → Leaves (dispatch_loop fuel c q idx u left notnum) (λ r. Held r.1)
unfolding dispatch_loop
dispatch_loop-Held fuel c q idx u zero notnum there a l =
    Leaves-ok (record { queue = q; there = there; active = a; locked = l })
dispatch_loop-Held fuel c q idx u (suc left) notnum there a l =
    Leaves-test _ _ _ (λ e. dispatch_loop-Held fuel c q idx u left (notnum + 1) there a l)
      (λ e. deliver-Held fuel c q idx u notnum a l)

-- A dispatch that returns 0 keeps the lock.
notification_dispatch-Held :
    (fuel : ℕ) (c : Context) → Leaves (notification_dispatch fuel c) (λ r. r.0 ≡ 0 → Held r.1)
unfolding notification_dispatch
notification_dispatch-Held fuel c =
    Leaves-option c.queue _ _ (λ n. Leaves-ok (λ e. absurd (omega arith)))
      λ q there.
        Leaves-test q.active _ _
          (λ active.
            Leaves-test q.locked _ _ (λ e. Leaves-deadlock)
              λ e.
                Leaves-test (q.pending == 0) _ _ (λ e'. Leaves-ok (λ z. absurd (omega arith)))
                  λ e'.
                    Leaves-option
                      (get_elem? (get_ucontext c.ucontexts).1 (get_ucontext c.ucontexts).0) _ _
                      (λ n. Leaves-fault)
                      λ u t.
                        Leaves-weaken
                          (dispatch_loop-Held fuel _ (record q { locked = true }) _ u
                            notification_max 1 refl active refl)
                          (λ r h z. h))
          (λ e. Leaves-ok (λ z. absurd (omega arith)))

Held-deadlock : (fuel : ℕ) (c : Context) → Held c → notification_dispatch fuel c ≡ deadlock
unfolding notification_dispatch
Held-deadlock fuel c h = simp (notification_dispatch, h.there, h.active, h.locked)

-- A dispatch that returns 0 keeps the lock of the queue, so that the next one on the same context
-- spins for ever.
pub dispatch-dispatch :
    (fuel fuel' : ℕ) (c c' : Context)
    → notification_dispatch fuel c ≡ ok (0, c')
    → notification_dispatch fuel' c' ≡ deadlock
dispatch-dispatch fuel fuel' c c' e =
    Held-deadlock fuel' c' ((notification_dispatch-Held fuel c).at (0, c') e refl)

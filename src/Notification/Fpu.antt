-- ===== src/Notification/Fpu.antt =====
-- The FPU areas of user contexts: get_ucontext makes none, and nothing else gives one.
use rock.Base.{
  ℕ, zero, suc, ◌+◌, ◌-◌, ◌≡◌, refl, true, Option, none, some, List, [], ◌∷◌, ◌++◌, ◌==◌, get_elem?,
  set, length, Leaves, Leaves-ok, Leaves-fault, Leaves-deadlock, Leaves-test, Leaves-bind,
  Leaves-option, subst,
}
use rock.Notification.Queue.{NotificationQueue, notification_max, notification_pop}
use rock.Notification.{
  Context, UserContext, zero_context, first_inactive, get_ucontext, free_stack, handler_context,
  deliver, dispatch_loop, notification_dispatch,
}

-- no user context has an FPU area
pub data NoFpu : List UserContext → Type 0 where
  empty : NoFpu []
  more : (u : UserContext) (us : List UserContext) → u.fpu_context ≡ 0 → NoFpu us → NoFpu (u ∷ us)

pub NoFpu-get_elem? :
    (us : List UserContext) (i : ℕ) (u : UserContext)
    → NoFpu us
    → get_elem? us i ≡ some u
    → u.fpu_context ≡ 0
NoFpu-get_elem? us i u empty e = absurd cc
NoFpu-get_elem? us zero u (more v vs none_there rest) e =
    let same : v ≡ u = cc in subst (λ x. x.fpu_context ≡ 0) same none_there
NoFpu-get_elem? us (suc i) u (more v vs none_there rest) e = NoFpu-get_elem? vs i u rest e

pub NoFpu-set :
    (us : List UserContext) (i : ℕ) (u : UserContext)
    → NoFpu us
    → u.fpu_context ≡ 0
    → NoFpu (set us i u)
NoFpu-set us i u empty e = empty
NoFpu-set us zero u (more v vs none_there rest) e = more u vs e rest
NoFpu-set us (suc i) u (more v vs none_there rest) e =
    more v (set vs i u) none_there (NoFpu-set vs i u rest e)

NoFpu-append_zero : (us : List UserContext) → NoFpu us → NoFpu (us ++ zero_context ∷ [])
NoFpu-append_zero us empty = more zero_context [] refl empty
NoFpu-append_zero us (more v vs none_there rest) =
    more v (vs ++ zero_context ∷ []) none_there (NoFpu-append_zero vs rest)

get_ucontext-NoFpu : (us : List UserContext) → NoFpu us → NoFpu (get_ucontext us).1
unfolding get_ucontext
get_ucontext-NoFpu us h = at_option (first_inactive 0 us)
  where
    at_option :
        (o : Option ℕ)
        → NoFpu
            (elim o as (λ x. ℕ × List UserContext) [
              | some i ↦ (i, us)
              | none ↦ (length us, us ++ zero_context ∷ [])
            ]).1
    at_option none = NoFpu-append_zero us h
    at_option (some i) = h

deliver-NoFpu :
    (fuel : ℕ) (c : Context) (q : NotificationQueue) (idx : ℕ) (u : UserContext) (notnum : ℕ)
    → NoFpu c.ucontexts
    → u.fpu_context ≡ 0
    → Leaves (deliver fuel c q idx u notnum) (λ r. NoFpu r.1.ucontexts)
unfolding deliver handler_context
deliver-NoFpu fuel c q idx u notnum h e = Leaves-bind (notification_pop fuel q notnum) _ λ r e1.
    Leaves-option (free_stack 0 c.stacks) _ _ (λ n. Leaves-ok h)
      λ stack s.
        Leaves-option (get_elem? c.actions (notnum - 1)) _ _ (λ n. Leaves-fault)
          λ action t. Leaves-ok (NoFpu-set c.ucontexts idx _ h e)

dispatch_loop-NoFpu :
    (fuel : ℕ) (c : Context) (q : NotificationQueue) (idx : ℕ) (u : UserContext) (left notnum : ℕ)
    → NoFpu c.ucontexts
    → u.fpu_context ≡ 0
    → Leaves (dispatch_loop fuel c q idx u left notnum) (λ r. NoFpu r.1.ucontexts)
unfolding dispatch_loop
dispatch_loop-NoFpu fuel c q idx u zero notnum h e = Leaves-ok h
dispatch_loop-NoFpu fuel c q idx u (suc left) notnum h e =
    Leaves-test _ _ _ (λ t. dispatch_loop-NoFpu fuel c q idx u left (notnum + 1) h e)
      (λ t. deliver-NoFpu fuel c q idx u notnum h e)

pub notification_dispatch-NoFpu :
    (fuel : ℕ) (c : Context)
    → NoFpu c.ucontexts
    → Leaves (notification_dispatch fuel c) (λ r. NoFpu r.1.ucontexts)
unfolding notification_dispatch
notification_dispatch-NoFpu fuel c h =
    Leaves-option c.queue _ _ (λ n. Leaves-ok h)
      λ q there.
        Leaves-test q.active _ _
          (λ active.
            Leaves-test q.locked _ _ (λ e. Leaves-deadlock)
              λ e.
                Leaves-test (q.pending == 0) _ _ (λ e'. Leaves-ok h)
                  λ e'.
                    let us = get_ucontext-NoFpu c.ucontexts h in
                    Leaves-option
                      (get_elem? (get_ucontext c.ucontexts).1 (get_ucontext c.ucontexts).0) _ _
                      (λ n. Leaves-fault)
                      λ u t.
                        dispatch_loop-NoFpu fuel _ (record q { locked = true }) _ u notification_max
                          1 us (NoFpu-get_elem? _ _ u us t))
          (λ e. Leaves-ok h)

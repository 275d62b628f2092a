-- ===== src/Notification/Delivered.antt =====
-- The outcomes of dispatching the first notification that is ready.
use rock.Base.{
  ℕ, zero, suc, ◌+◌, ◌-◌, ◌^◌, ◌≤◌, ◌<◌, ◌≡◌, refl, ◌∙◌, true, false, Option, none, some, List, [],
  ◌∷◌, ◌++◌, length, get_elem?, set, get_elem?-set_self, get_elem?-append_self, get_elem?-inside,
  get_elem?-lt, int_lt, ok, fault, out_of_fuel, arith,
}
use rock.Notification.Queue.{
  Notification, NotificationQueue, slot_of, pop_loop, notification_pop, notification_mask,
  clear_pending,
}
use rock.Notification.{
  Context, UserStack, UserContext, NotificationAction, zero_context, first_inactive, get_ucontext,
  free_stack, handler_context, deliver, notification_dispatch,
}
use rock.Notification.Deliver.{First, dispatch-deliver}

-- `n` is an index counted from `i` into a list of that length
first_inactive-inside :
    (i : ℕ) (us : List UserContext) (n : ℕ)
    → first_inactive i us ≡ some n
    → (i ≤ n) × (n < i + length us)
unfolding first_inactive
first_inactive-inside i [] n e = absurd cc
first_inactive-inside i (u ∷ us) n e = ground (arith, first_inactive-inside (i + 1) us n)

-- There is a user context at the index that `get_ucontext` gives.
get_ucontext-there :
    (us : List UserContext)
    → (u : UserContext) × (get_elem? (get_ucontext us).1 (get_ucontext us).0 ≡ some u)
unfolding get_ucontext
get_ucontext-there us = at_option (first_inactive 0 us) refl
  where
    at_option :
        (o : Option ℕ)
        → first_inactive 0 us ≡ o
        → (u : UserContext) × (get_elem?
              (elim o as (λ t. ℕ × List UserContext) [
                | some i ↦ (i, us)
                | none ↦ (length us, us ++ zero_context ∷ [])
              ]).1
              (elim o as (λ t. ℕ × List UserContext) [
                | some i ↦ (i, us)
                | none ↦ (length us, us ++ zero_context ∷ [])
              ]).0
            ≡ some u)
    at_option none e = (zero_context, get_elem?-append_self us zero_context)
    at_option (some i) e = get_elem?-inside us i (omega (arith, first_inactive-inside 0 us i e))

slot-low :
    (q : NotificationQueue) (n : ℕ) (l : List Notification)
    → 1 ≤ n
    → n ≤ 64
    → get_elem? q.queue (n - 1) ≡ some l
    → slot_of q n ≡ ok l
slot-low q n l lo hi e = rw (not_negative, e)
  where
    not_negative : int_lt n 1 ≡ false
    not_negative = ground arith

mask-below : (n : ℕ) → 2 ≤ n → notification_mask (n - 1) ≡ ok (2 ^ (n - 2))
mask-below n h = let e : n - 1 ≡ suc (n - 2) = omega arith in rw e refl

mask-one : (n : ℕ) → n ≡ 1 → notification_mask (n - 1) ≡ fault
mask-one n e = let z : n - 1 ≡ 0 = omega arith in rw z refl

pop-stuck :
    (fuel : ℕ) (x y : Notification) (l : List Notification)
    → pop_loop fuel (x ∷ y ∷ l) ≡ out_of_fuel
unfolding pop_loop
pop-stuck zero x y l = refl
pop-stuck (suc fuel) x y l = pop-stuck fuel x y l

module _ (c : Context) (q : NotificationQueue) (n : ℕ) (f : First c q n) where
  -- If two notifications are queued under the first number that is ready, dispatch never returns,
  -- however long it runs.
  pub dispatch-two_queued :
      (x y : Notification) (l : List Notification)
      → get_elem? q.queue (n - 1) ≡ some (x ∷ y ∷ l)
      → (fuel : ℕ) → notification_dispatch fuel c ≡ out_of_fuel
  unfolding deliver notification_pop
  dispatch-two_queued x y l e fuel =
      let (u, found) = get_ucontext-there c.ucontexts in
      dispatch-deliver fuel c q n f u found
      ∙ rw (
        deliver,
        notification_pop,
        slot-low (record q { locked = true }) n (x ∷ y ∷ l) f.low f.high e,
        pop-stuck fuel x y l,
      )

  -- If one notification is queued under the first number that is ready, that number is not 1, a stack
  -- is free and the number has an action, dispatch returns 0 with a user context that enters the
  -- handler on that stack. The handler is told the next number, and the notification stays queued.
  pub dispatch-delivers :
      (x : Notification) (i : ℕ) (stack : UserStack) (action : NotificationAction) (fuel : ℕ)
      → get_elem? q.queue (n - 1) ≡ some (x ∷ [])
      → 2 ≤ n
      → free_stack 0 c.stacks ≡ some (i, stack)
      → get_elem? c.actions (n - 1) ≡ some action
      → (c' : Context) × (u : UserContext) × (idx : ℕ) × (q' : NotificationQueue)
        × (notification_dispatch (suc fuel) c ≡ ok (0, c'))
        × (c'.ucontext ≡ some idx)
        × (get_elem? c'.ucontexts idx ≡ some u)
        × (u.active ≡ true)
        × (u.stack ≡ some i)
        × (u.regs.rip ≡ action.handler)
        × (u.regs.rsp ≡ stack.user_sp)
        × (u.regs.rdi ≡ x.info)
        × (u.regs.rdx ≡ n + 1)
        × (c'.queue ≡ some q')
        × (q'.queue ≡ q.queue)
  unfolding deliver notification_pop pop_loop handler_context
  dispatch-delivers x i stack action fuel e two st act =
      let (u, found) = get_ucontext-there c.ucontexts in
      let idx = (get_ucontext c.ucontexts).0 in
      let q' = record q { locked = true; pending = clear_pending q.pending (2 ^ (n - 2)) } in
      let u' = handler_context u i stack action x n in
      (
        record c {
          queue = some q';
          ucontexts = set (get_ucontext c.ucontexts).1 idx u';
          ucontext = some idx;
          ucontext_idx = idx;
        },
        u',
        idx,
        q',
        dispatch-deliver (suc fuel) c q n f u found
            ∙ rw
                (
                  deliver,
                  notification_pop,
                  slot-low (record q { locked = true }) n (x ∷ []) f.low f.high e,
                  mask-below n two,
                  st,
                  act,
                )
                refl,
        refl,
        get_elem?-set_self (get_ucontext c.ucontexts).1 idx u' (get_elem?-lt _ idx found),
        refl,
        refl,
        refl,
        refl,
        refl,
        refl,
        refl,
        refl,
      )

  -- The first number is 1: the shift for it by -1 is undefined.
  pub dispatch-number_one :
      (x : Notification) (fuel : ℕ)
      → get_elem? q.queue 0 ≡ some (x ∷ [])
      → n ≡ 1
      → notification_dispatch (suc fuel) c ≡ fault
  unfolding deliver notification_pop pop_loop
  dispatch-number_one x fuel e one =
      let (u, found) = get_ucontext-there c.ucontexts in
      let z : n - 1 ≡ 0 = omega arith in
      dispatch-deliver (suc fuel) c q n f u found
      ∙ rw
          (
            deliver,
            notification_pop,
            slot-low (record q { locked = true }) n (x ∷ []) f.low f.high (rw z e),
            mask-one n one,
          )
          refl

-- ===== src/Notification/Tests.antt =====
-- A context with one stack, 64 actions, and notifications of number 3.
use native.Mathlib.Decide.{ℕ_discrete}
use rock.Base.{
  ℕ, zero, suc, ◌+◌, ◌≡◌, inl, refl, true, false, none, some, List, [], ◌∷◌, length, get_elem?,
  ◌==◌, if◌then◌else◌, Run, ok, arith,
}
use rock.Notification.Queue.{Notification, NotificationQueue, pop_loop, notification_pop}
use rock.Notification.{
  Context, UserStack, UserContext, NotificationAction, Weights, free_stack, deliver, dispatch_loop,
  notification_dispatch, first_inactive, get_ucontext, handler_context,
}
use rock.Notification.Deliver.{First}
use rock.Notification.Delivered.{dispatch-delivers}

-- `n` slots from the `i`-th on, where slot `at` holds `l`
abbrev slots : ℕ → ℕ → ℕ → List Notification → List (List Notification)
slots zero i at l = []
slots (suc n) i at l = (if i == at then l else []) ∷ slots n (suc i) at l

length-slots : (n i at : ℕ) (l : List Notification) → length (slots n i at l) ≡ n
length-slots zero i at l = refl
length-slots (suc n) i at l = omega (arith, length-slots n (suc i) at l)

abbrev actions : ℕ → ℕ → List NotificationAction
actions zero i = []
actions (suc n) i = record { handler = 0x1000 + i } ∷ actions n (suc i)

length-actions : (n i : ℕ) → length (actions n i) ≡ n
length-actions zero i = refl
length-actions (suc n) i = omega (arith, length-actions n (suc i))

abbrev hello : Notification
hello = record { refcnt = 1; notnum = 3; share_vaddr = 0; info = 77 }

abbrev queue_of : ℕ → ℕ → List Notification → NotificationQueue
queue_of pending at l = record {
  queue = slots 64 0 at l;
  mask = 0;
  active = true;
  pending = pending;
  locked = false;
}

abbrev stack : UserStack
stack = record {
  user_sp = 0x7000;
  user_size = 0x1000;
  kernel_sp = 0;
  kernel_size = 0;
  active = false;
}

abbrev context_of : NotificationQueue → Context
context_of q = record {
  stacks = stack ∷ [];
  actions = actions 64 0;
  queue = some q;
  ucontexts = [];
  ucontext = none;
  ucontext_idx = 0;
  locked = false;
}

abbrev one_queued : NotificationQueue
one_queued = queue_of 4 2 (hello ∷ [])

abbrev two_queued : NotificationQueue
two_queued = queue_of 4 2 (hello ∷ hello ∷ [])

three-First : (l : List Notification) → First (context_of (queue_of 4 2 l)) (queue_of 4 2 l) 3
three-First l = record {
  there = refl;
  active = refl;
  unlocked = refl;
  some_pending = omega arith;
  low = omega arith;
  high = omega arith;
  ready = record { pending = refl; unmasked = refl };
  skipped = λ j lo hi. elim (ℕ_discrete j 1) [
    | yes e ↦ rw e (inl refl)
    | no ne ↦ let e : j ≡ 2 = omega arith in rw e (inl refl)
  ];
}

abbrev handler_action : NotificationAction
handler_action = record { handler = 0x1002 }

abbrev after : Run (ℕ × Context) → Context
after (ok (r, c)) = c
after r = context_of one_queued

delivered_is :
    notification_dispatch 5 (context_of one_queued)
    ≡ ok (0, after (notification_dispatch 5 (context_of one_queued)))
unfolding notification_dispatch dispatch_loop deliver notification_pop pop_loop get_ucontext
    first_inactive free_stack handler_context
delivered_is = refl

stack_found : free_stack 0 (stack ∷ []) ≡ some (0, stack)
unfolding free_stack
stack_found = refl

dispatch-delivers_example :
    (c' : Context) × (u : UserContext) × (idx : ℕ) × (q' : NotificationQueue)
    × (notification_dispatch 5 (context_of one_queued) ≡ ok (0, c'))
    × (c'.ucontext ≡ some idx)
    × (get_elem? c'.ucontexts idx ≡ some u)
    × (u.active ≡ true)
    × (u.stack ≡ some 0)
    × (u.regs.rip ≡ 0x1002)
    × (u.regs.rsp ≡ 0x7000)
    × (u.regs.rdi ≡ 77)
    × (u.regs.rdx ≡ 4)
    × (c'.queue ≡ some q')
    × (q'.queue ≡ one_queued.queue)
dispatch-delivers_example =
    dispatch-delivers (context_of one_queued) one_queued 3 (three-First (hello ∷ [])) hello 0 stack
      handler_action 4 refl (omega arith) stack_found refl

abbrev first_queue : NotificationQueue
first_queue = queue_of 1 0 (hello ∷ [])

one-First : First (context_of first_queue) first_queue 1
one-First = record {
  there = refl;
  active = refl;
  unlocked = refl;
  some_pending = omega arith;
  low = omega arith;
  high = omega arith;
  ready = record { pending = refl; unmasked = refl };
  skipped = λ j lo hi. absurd (omega arith);
}

abbrev weights : Weights
weights = record { instantaneous = 1; tick = 2 }

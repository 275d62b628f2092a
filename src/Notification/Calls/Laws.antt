-- ===== src/Notification/Calls/Laws.antt =====
-- Actions, and what a return and a mute do to the next dispatch.
use rock.Base.{
  ℕ, ◌-◌, ◌≤◌, ◌<◌, ◌≡◌, refl, Bool, true, false, Option, none, some, length, ◌==◌, get_elem?, set,
  get_elem?-set_self, get_elem?-set_ne, get_elem?-outside, get_elem?-inside, if◌then◌else◌,
  minus_one_int, ok, fault, arith,
}
use rock.Notification.Queue.{NotificationQueue}
use rock.Notification.{Context, NotificationAction, notification_is_valid, notification_dispatch}
use rock.Notification.Calls.{accessed, notification_action, notification_mute}

number-valid : (n : ℕ) → 1 ≤ n → n ≤ 64 → (notification_is_valid n == minus_one_int) ≡ false
unfolding notification_is_valid
number-valid n lo hi = ground arith

-- With the lock open and 64 actions, setting the action of a number below 64 leaves the one that
-- dispatch reads for it, at the index before, and sets the one that dispatch reads for the next.
-- Setting the action of number 64 writes outside the table.
pub notification_action-next :
    (c : Context) (n : ℕ) (a : NotificationAction) (old : Bool)
    → length c.actions ≡ 64
    → c.locked ≡ false
    → 1 ≤ n
    → (n < 64
        → (c' : Context) × (current : Option NotificationAction) × (notification_action
              (some c)
              n
              (some a)
              old
            ≡ ok (0, some c', current))
          × (get_elem? c'.actions (n - 1) ≡ get_elem? c.actions (n - 1))
          × (get_elem? c'.actions n ≡ some a))
      × (n ≡ 64 → notification_action (some c) n (some a) old ≡ fault)
unfolding notification_action
notification_action-next c n a old len free lo = (in_table, outside)
  where
    any : accessed old (some a) ≡ true
    any = elim old as (λ b. accessed b (some a) ≡ true) [ true ↦ refl | false ↦ refl ]

    in_table :
        n < 64
        → (c' : Context) × (current : Option NotificationAction) × (notification_action
              (some c)
              n
              (some a)
              old
            ≡ ok (0, some c', current))
          × (get_elem? c'.actions (n - 1) ≡ get_elem? c.actions (n - 1))
          × (get_elem? c'.actions n ≡ some a)
    in_table h =
        let (current, e) = get_elem?-inside c.actions n (omega arith) in
        (
          record c { actions = set c.actions n a },
          (if old then some current else none),
          simp (notification_action, number-valid n lo (omega arith), free, any, e),
          get_elem?-set_ne c.actions n (n - 1) a (λ e. absurd (omega arith)),
          get_elem?-set_self c.actions n a (omega arith),
        )

    outside : n ≡ 64 → notification_action (some c) n (some a) old ≡ fault
    outside h = simp (
      notification_action,
      number-valid n lo (omega arith),
      free,
      any,
      get_elem?-outside c.actions n (omega arith),
    )

-- A muted context gets no notification: dispatch returns -1 and leaves it as it is.
pub dispatch-mute :
    (fuel : ℕ) (c : Context) (q : NotificationQueue)
    → c.queue ≡ some q
    → (c' : Context) × (notification_mute (some c) ≡ (0, some c'))
      × (notification_dispatch fuel c' ≡ ok (minus_one_int, c'))
unfolding notification_mute notification_dispatch
dispatch-mute fuel c q e = (record c { queue = some (record q { active = false }) }, simp e, refl)

-- ===== src/Notification/Quiet.antt =====
-- Contexts that have no notification to deliver.
use rock.Base.{ℕ, ◌≡◌, true, false, none, some, ok, minus_one_int}
use rock.Notification.{notification_dispatch}
use rock.Notification.Queue.{NotificationQueue}

-- No notification is there to be delivered to the context.
pub data NothingPending (c : rock.Notification.Context) : Type 0 where
  no_queue : c.queue ≡ none → NothingPending c
  inactive : (q : NotificationQueue) → c.queue ≡ some q → q.active ≡ false → NothingPending c
  none_pending :
      (q : NotificationQueue)
      → c.queue ≡ some q
      → q.active ≡ true
      → q.locked ≡ false
      → q.pending ≡ 0
      → NothingPending c

pub dispatch-NothingPending :
    (fuel : ℕ) (c : rock.Notification.Context)
    → NothingPending c
    → notification_dispatch fuel c ≡ ok (minus_one_int, c)
unfolding notification_dispatch
dispatch-NothingPending fuel c (no_queue e) = simp (notification_dispatch, e)
dispatch-NothingPending fuel c (inactive q e a) = simp (notification_dispatch, e, a)
dispatch-NothingPending fuel c (none_pending q e a l p) = simp (notification_dispatch, e, a, l, p)

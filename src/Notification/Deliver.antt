-- ===== src/Notification/Deliver.antt =====
-- Which notification a dispatch delivers, and how.
use native.Mathlib.Decide.{ℕ_discrete}
use rock.Base.{
  ℕ, zero, suc, ◌+◌, ◌-◌, ◌^◌, ◌≤◌, ◌<◌, ◌≡◌, ◌≢◌, ◌⊎◌, inl, inr, ◌∙◌, bit_and, Bool, true, false,
  ◌||◌, not, some, ◌==◌, get_elem?, sign_extend, bit, arith,
}
use rock.Base.Bits.Flag.{test_of_clear, test_of_set}
use rock.Notification.Queue.{NotificationQueue, notification_max}
use rock.Notification.{
  Context, UserContext, get_ucontext, deliver, dispatch_loop, notification_dispatch,
}

-- number `n` is pending and not masked
pub record Ready (q : NotificationQueue) (n : ℕ) : Type 0 where
  pub pending : bit (n - 1) (sign_extend q.pending) ≡ 1
  pub unmasked : bit (n - 1) (sign_extend q.mask) ≡ 0

abbrev pub Skipped : NotificationQueue → ℕ → Type 0
Skipped q n = (bit (n - 1) (sign_extend q.pending) ≡ 0) ⊎ (bit (n - 1) (sign_extend q.mask) ≡ 1)

abbrev skips : NotificationQueue → ℕ → Bool
skips q n =
    bit_and (sign_extend q.pending) (2 ^ (n - 1)) == 0
    || not (bit_and (sign_extend q.mask) (2 ^ (n - 1)) == 0)

Ready-skips : (q : NotificationQueue) (n : ℕ) → Ready q n → skips q n ≡ false
Ready-skips q n r = ground (
  arith,
  test_of_set (n - 1) (sign_extend q.pending) r.pending,
  test_of_clear (n - 1) (sign_extend q.mask) r.unmasked,
)

Skipped-skips : (q : NotificationQueue) (n : ℕ) → Skipped q n → skips q n ≡ true
Skipped-skips q n (inl h) = ground (arith, test_of_clear (n - 1) (sign_extend q.pending) h)
Skipped-skips q n (inr h) = ground (arith, test_of_set (n - 1) (sign_extend q.mask) h)

module _ (fuel : ℕ) (c : Context) (q : NotificationQueue) (idx : ℕ) (u : UserContext) (n : ℕ)
    (ready : Ready q n) where
  loop-here : (left : ℕ) → dispatch_loop fuel c q idx u (suc left) n ≡ deliver fuel c q idx u n
  unfolding dispatch_loop
  loop-here left = rw (dispatch_loop, Ready-skips q n ready)

  loop-later :
      (left k : ℕ)
      → Skipped q k
      → dispatch_loop fuel c q idx u (suc left) k ≡ dispatch_loop fuel c q idx u left (k + 1)
  unfolding dispatch_loop
  loop-later left k s = rw (dispatch_loop, Skipped-skips q k s)

  -- The loop gets to the first number that is ready.
  dispatch_loop-deliver :
      (left k : ℕ)
      → k ≤ n
      → n < k + left
      → ((j : ℕ) → k ≤ j → j < n → Skipped q j)
      → dispatch_loop fuel c q idx u left k ≡ deliver fuel c q idx u n
  dispatch_loop-deliver zero k le lt skipped = absurd (omega arith)
  dispatch_loop-deliver (suc left) k le lt skipped = elim (ℕ_discrete k n) [
    | yes e ↦ rw e (loop-here left)
    | no ne ↦
        loop-later left k (skipped k (omega arith) (omega arith))
        ∙ dispatch_loop-deliver left (k + 1) (omega arith) (omega arith)
            (λ j h h'. skipped j (omega arith) h')
  ]

-- The queue of the context is active, open, and `n` is the first number that is ready.
pub record First (c : Context) (q : NotificationQueue) (n : ℕ) : Type 0 where
  pub there : c.queue ≡ some q
  pub active : q.active ≡ true
  pub unlocked : q.locked ≡ false
  pub some_pending : q.pending ≢ 0
  pub low : 1 ≤ n
  pub high : n ≤ 64
  pub ready : Ready q n
  pub skipped : (j : ℕ) → 1 ≤ j → j < n → Skipped q j

module _ (fuel : ℕ) (c : Context) (q : NotificationQueue) (n : ℕ) (f : First c q n)
    (u : UserContext)
    (found : get_elem? (get_ucontext c.ucontexts).1 (get_ucontext c.ucontexts).0 ≡ some u) where
  abbrev pub held : NotificationQueue
  held = record q { locked = true }

  abbrev pub taken : Context
  taken = record c {
    queue = some held;
    ucontexts = (get_ucontext c.ucontexts).1;
    ucontext_idx = (get_ucontext c.ucontexts).0;
  }

  held-Ready : Ready held n
  held-Ready = record { pending = f.ready.pending; unmasked = f.ready.unmasked }

  dispatch-loop :
      notification_dispatch fuel c
      ≡ dispatch_loop fuel taken held (get_ucontext c.ucontexts).0 u notification_max 1
  unfolding notification_dispatch
  dispatch-loop = simp (notification_dispatch, f.there, f.active, f.unlocked, not_zero, found)
    where
      not_zero : (q.pending == 0) ≡ false
      not_zero = ground (arith, f.some_pending)

  pub dispatch-deliver :
      notification_dispatch fuel c ≡ deliver fuel taken held (get_ucontext c.ucontexts).0 u n
  dispatch-deliver =
      dispatch-loop
      ∙ dispatch_loop-deliver fuel taken held _ u n held-Ready notification_max 1 f.low
          (omega (arith, f.high)) f.skipped

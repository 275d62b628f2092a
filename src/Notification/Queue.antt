-- ===== src/Notification/Queue.antt =====
-- kernel/core/notification.h: the queue of a context, NOTIFICATION_PUSH and NOTIFICATION_POP.
use rock.Base.{
  ℕ, zero, suc, ◌-◌, ◌%◌, ◌^◌, bit_and, bit_or, Bool, Option, none, some, List, [], ◌∷◌,
  if◌then◌else◌, get_elem?, set, Run, ok, fault, out_of_fuel, ◌>>=◌, sign_extend, int_lt,
}

pub record Notification : Type 0 where
  pub refcnt : ℕ
  pub notnum : ℕ
  pub share_vaddr : ℕ
  pub info : ℕ

pub record NotificationQueue : Type 0 where
  pub queue : List (List Notification)
  pub mask : ℕ
  pub active : Bool
  pub pending : ℕ
  pub locked : Bool

abbrev pub notification_max : ℕ
notification_max = 64

-- NOTIFICATION_MASK: a shift by -1 is undefined
abbrev pub notification_mask : ℕ → Run ℕ
notification_mask zero = fault
notification_mask (suc k) = ok (2 ^ k)

-- the conversions to 64 bits and back that `pending |= mask` and `pending &= ~mask` make
abbrev pub set_pending : ℕ → ℕ → ℕ
set_pending pending m = bit_or (sign_extend pending) m % 2 ^ 32

abbrev pub clear_pending : ℕ → ℕ → ℕ
clear_pending pending m = bit_and (sign_extend pending) (2 ^ 64 - 1 - m) % 2 ^ 32

-- `queue->queue[notnum - 1]`, where an index out of bounds is a fault
abbrev pub slot_of : NotificationQueue → ℕ → Run (List Notification)
slot_of q notnum =
    if int_lt notnum 1
    then fault
    else elim (get_elem? q.queue (notnum - 1)) [ none ↦ fault | some l ↦ ok l ]

-- NOTIFICATION_PUSH
unfoldable pub notification_push : NotificationQueue → Notification → Run NotificationQueue
notification_push q x = do
  l ← slot_of q x.notnum
  m ← notification_mask x.notnum
  ok (record q { queue = set q.queue (x.notnum - 1) (x ∷ l); pending = set_pending q.pending m })

-- the loop of NOTIFICATION_POP, whose body `root->next;` leaves `root` as it is
unfoldable pub pop_loop : ℕ → List Notification → Run (Option Notification)
pop_loop fuel [] = ok none
pop_loop zero (x ∷ l) = out_of_fuel
pop_loop (suc fuel) (x ∷ []) = ok (some x)
pop_loop (suc fuel) (x ∷ y ∷ l) = pop_loop fuel (x ∷ y ∷ l)

-- NOTIFICATION_POP: `root->last` of NULL faults, and that of a head is NULL.
unfoldable pub notification_pop : ℕ → NotificationQueue → ℕ → Run (Notification × NotificationQueue)
notification_pop fuel q notnum = do
  l ← slot_of q notnum
  root ← pop_loop fuel l
  elim root [
    | none ↦ fault
    | some x ↦ notification_mask (notnum - 1) >>= λ m.
        ok (x, record q { pending = clear_pending q.pending m })
  ]

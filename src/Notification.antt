-- ===== src/Notification.antt =====
-- kernel/core/notification.c: sending and dispatch.
-- A chain of notifications is a list, its head first: `alloc` gives zeroed objects, so the head has
-- no `last` and the end no `next`. Pointers to stacks and user contexts are indices of their lists.
-- `int` fields are 32 bits. That memory runs out is not modelled.
pub mod Queue
pub mod Dispatch
pub mod Deliver
pub mod Delivered
pub mod Send
pub mod Calls
pub mod Quiet
pub mod Fpu
mod Tests
use rock.Base.{
  ℕ, zero, suc, ◌+◌, ◌-◌, ◌%◌, ◌^◌, bit_and, bit_or, Bool, true, false, ◌||◌, not, ◌++◌, Option,
  none, some, List, [], ◌∷◌, ltb, ◌==◌, if◌then◌else◌, length, get_elem?, set, Run, ok, fault,
  deadlock, out_of_fuel, ◌>>=◌, sign_extend, int_lt, minus_one_int,
}
use rock.Interrupts.Handler.{Registers, zero_registers}
use Queue.{Notification, NotificationQueue, notification_max, notification_push, notification_pop}

pub record UserStack : Type 0 where
  pub user_sp : ℕ
  pub user_size : ℕ
  pub kernel_sp : ℕ
  pub kernel_size : ℕ
  pub active : Bool

pub record UserContext : Type 0 where
  pub stack : Option ℕ
  pub regs : Registers
  pub fpu_context : ℕ
  pub active : Bool

-- `struct notification_action` as far as the kernel reads it
pub record NotificationAction : Type 0 where
  pub handler : ℕ

-- `context->notification`
pub record Context : Type 0 where
  pub stacks : List UserStack
  pub actions : List NotificationAction
  pub queue : Option NotificationQueue
  pub ucontexts : List UserContext
  pub ucontext : Option ℕ
  pub ucontext_idx : ℕ
  pub locked : Bool

pub notification_is_valid : ℕ → ℕ
notification_is_valid notnum =
    if int_lt notnum 1 || int_lt notification_max notnum then minus_one_int else 0

-- `NOTIFY_WEIGHT_INSTANTANEOUS` and `NOTIFY_WEIGHT_TICK`, which fayt/notification.h declares
pub record Weights : Type 0 where
  pub instantaneous : ℕ
  pub tick : ℕ

-- what sending does beside the queue: a push on CORE_LOCAL->delivery_stack, and a yield
pub record Sent : Type 0 where
  pub delivery : Bool
  pub yields : Bool

abbrev pub not_sent : Sent
not_sent = record { delivery = false; yields = false }

pub notification_check_perms : Context → Context → ℕ → ℕ
notification_check_perms sender target notnum = 0

pub notification_send :
    Weights → Option Context → Option Context → ℕ → ℕ → ℕ → Run (ℕ × Option Context × Sent)
notification_send w none target notnum weight info = ok (minus_one_int, target, not_sent)
notification_send w (some sender) none notnum weight info = ok (minus_one_int, none, not_sent)
notification_send w (some sender) (some target) notnum weight info =
    if notification_is_valid notnum == 0
      || notification_check_perms sender target notnum == minus_one_int
    then ok (minus_one_int, some target, not_sent)
    else elim target.queue [
      | none ↦ ok (minus_one_int, some target, not_sent)
      | some q ↦
          notification_push q (record { refcnt = 1; notnum = notnum; share_vaddr = 0; info = info })
          >>= λ q'.
              let now = not (bit_and weight w.instantaneous == 0) in
              ok (
                0,
                some (record target { queue = some q' }),
                record { delivery = now || not (bit_and weight w.tick == 0); yields = now },
              )
    ]

-- the first inactive user context, or a new one at the end
unfoldable pub first_inactive : ℕ → List UserContext → Option ℕ
first_inactive i [] = none
first_inactive i (u ∷ us) =
    let later = first_inactive (i + 1) us in if u.active then later else some i

abbrev pub zero_context : UserContext
zero_context = record { stack = none; active = false; regs = zero_registers; fpu_context = 0 }

unfoldable pub get_ucontext : List UserContext → ℕ × List UserContext
get_ucontext us = elim (first_inactive 0 us) [
  | some i ↦ (i, us)
  | none ↦ (length us, us ++ zero_context ∷ [])
]

unfoldable pub free_stack : ℕ → List UserStack → Option (ℕ × UserStack)
free_stack i [] = none
free_stack i (u ∷ us) = let later = free_stack (i + 1) us in if u.active then later else some (i, u)

-- what a user context is set to for a handler
unfoldable pub handler_context :
    UserContext → ℕ → UserStack → NotificationAction → Notification → ℕ → UserContext
handler_context u i stack action x notnum = record u {
  stack = some i;
  active = true;
  regs = record u.regs {
    ss = 0x3b;
    rsp = stack.user_sp;
    rflags = 0x202;
    cs = 0x43;
    rip = action.handler;
    rdi = x.info;
    rsi = x.share_vaddr;
    rdx = notnum + 1;
  };
}

-- one notification: the body of the loop once its number is pending and not masked
unfoldable pub deliver : ℕ → Context → NotificationQueue → ℕ → UserContext → ℕ → Run (ℕ × Context)
deliver fuel c q idx u notnum = notification_pop fuel q notnum >>= λ (x, q').
    let c' = record c { queue = some q' } in
    elim (free_stack 0 c.stacks) [
      | none ↦ ok (0, c')
      | some (i, stack) ↦ elim (get_elem? c.actions (notnum - 1)) [
        | none ↦ fault
        | some action ↦ ok (
          0,
          record c' {
            ucontexts = set c.ucontexts idx (handler_context u i stack action x notnum);
            ucontext = some idx;
          },
        )
      ]
    ]

-- the loop over the numbers, of which `left` are left
unfoldable pub dispatch_loop :
    ℕ → Context → NotificationQueue → ℕ → UserContext → ℕ → ℕ → Run (ℕ × Context)
dispatch_loop fuel c q idx u zero notnum = ok (0, c)
dispatch_loop fuel c q idx u (suc left) notnum =
    let bit = 2 ^ (notnum - 1) in
    elim (bit_and (sign_extend q.pending) bit == 0 || not (bit_and (sign_extend q.mask) bit == 0)) [
      | true ↦ dispatch_loop fuel c q idx u left (notnum + 1)
      | false ↦ deliver fuel c q idx u notnum
    ]

-- The lock is released where nothing is pending only.
unfoldable pub notification_dispatch : ℕ → Context → Run (ℕ × Context)
notification_dispatch fuel c = elim c.queue [
  | none ↦ ok (minus_one_int, c)
  | some q ↦ elim q.active [
    | false ↦ ok (minus_one_int, c)
    | true ↦ elim q.locked [
      | true ↦ deadlock
      | false ↦ elim (q.pending == 0) [
        | true ↦ ok (minus_one_int, c)
        | false ↦
            let (idx, us) = get_ucontext c.ucontexts in
            let held = record q { locked = true } in
            let c' = record c { queue = some held; ucontexts = us; ucontext_idx = idx } in
            elim (get_elem? us idx) [
              | none ↦ fault
              | some u ↦ dispatch_loop fuel c' held idx u notification_max 1
            ]
      ]
    ]
  ]
]

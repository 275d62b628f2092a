-- ===== src/Notification/Calls.antt =====
-- The system calls of kernel/core/notification.c. `CORE_LOCAL->current_context` is an option, and a
-- body that falls off its end returns 0.
pub mod Laws
use rock.Base.{
  ℕ, ◌+◌, ◌-◌, ◌*◌, ◌%◌, ◌^◌, Bool, true, false, Option, none, some, List, [], ◌∷◌, ◌==◌,
  if◌then◌else◌, page_size, get_elem?, set, minus_one_int, add64, Run, ok, fault, deadlock, ◌>>=◌,
}
use rock.Fayt.{BitOps, Rounding, MemOps}
use rock.Physical.{Pmm, pmm_alloc}
use rock.Notification.Queue.{NotificationQueue}
use rock.Notification.{Context, UserStack, UserContext, NotificationAction, notification_is_valid}

-- whether `actions[not]` is read or written: `*old = …` or `… = *action`
abbrev pub accessed : Bool → Option NotificationAction → Bool
accessed true action = true
accessed false (some a) = true
accessed false none = false

abbrev pub written :
    List NotificationAction → ℕ → Option NotificationAction → List NotificationAction
written actions notnum none = actions
written actions notnum (some a) = set actions notnum a

-- `old` says whether the caller asks for the action there was, which is the last component.
pub notification_action :
    Option Context
    → ℕ
    → Option NotificationAction
    → Bool
    → Run (ℕ × Option Context × Option NotificationAction)
notification_action none notnum action old = ok (minus_one_int, none, none)
notification_action (some c) notnum action old =
    elim (notification_is_valid notnum == minus_one_int) [
      | true ↦ ok (minus_one_int, some c, none)
      | false ↦ elim c.locked [
        | true ↦ deadlock
        | false ↦ elim (accessed old action) [
          | false ↦ ok (0, some c, none)
          | true ↦ elim (get_elem? c.actions notnum) [
            | none ↦ fault
            | some current ↦ ok (
              0,
              some (record c { actions = written c.actions notnum action }),
              if old then some current else none,
            )
          ]
        ]
      ]
    ]

-- CONTEXT_DEFAULT_STACK_SIZE
abbrev pub context_default_stack_size : ℕ
context_default_stack_size = 0x10000

module _ (ops : BitOps) (rnd : Rounding) (mops : MemOps) (high_vma fuel : ℕ) where
  -- the result of pmm_alloc is used as it is, also where it is -1
  pub notification_define_stack :
      Option Context
      → Pmm ops rnd mops high_vma
      → ℕ
      → ℕ
      → Run (ℕ × Option Context × Pmm ops rnd mops high_vma)
  notification_define_stack none p sp size = ok (minus_one_int, none, p)
  notification_define_stack (some c) p sp size =
      pmm_alloc ops rnd mops high_vma fuel p (rnd.div_roundup context_default_stack_size page_size)
        1
      >>= λ (frame, p').
          let stack : UserStack = record {
            user_sp = sp;
            user_size = size;
            kernel_sp = add64 (add64 frame context_default_stack_size) high_vma;
            kernel_size = context_default_stack_size;
            active = false;
          } in
          ok (0, some (record c { stacks = stack ∷ c.stacks }), p')

-- `ucontext->active = 0`, if there is one
abbrev pub deactivate : List UserContext → Option ℕ → List UserContext
deactivate us none = us
deactivate us (some i) = elim (get_elem? us i) [
  | none ↦ us
  | some u ↦ set us i (record u { active = false })
]

-- What is restored then is the context's own registers: the result is `none` where the call returns -1.
pub notification_return : Option Context → Option Context × Bool
notification_return none = (none, false)
notification_return (some c) = elim c.queue [
  | none ↦ (some c, false)
  | some q ↦
      (some (record c { ucontexts = deactivate c.ucontexts c.ucontext; ucontext = none }), true)
]

abbrev pub set_active : Bool → Option Context → ℕ × Option Context
set_active b none = (minus_one_int, none)
set_active b (some c) = elim c.queue [
  | none ↦ (minus_one_int, some c)
  | some q ↦ (0, some (record c { queue = some (record q { active = b }) }))
]

pub notification_unmute : Option Context → ℕ × Option Context
notification_unmute c = set_active true c

pub notification_mute : Option Context → ℕ × Option Context
notification_mute c = set_active false c

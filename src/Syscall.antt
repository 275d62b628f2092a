-- ===== src/Syscall.antt =====
-- kernel/core/syscall.c: what a system call is checked for, and what it returns.
-- An `int` is its 32 bits. What a handler does is a parameter: it gets the machine, where the
-- registers are, and gives its result and the machine after it. What is printed is left out.
pub mod Dispatch
mod Tests
use rock.Base.{
  sign_extend, minus_one_int, ℕ, ◌+◌, ◌-◌, ◌%◌, ◌^◌, bit_and, Bool, true, false, Option, none, some,
  List, [], ◌∷◌, map, ltb, leb, ◌==◌, if◌then◌else◌, length, get_elem?, Run, ok, fault,
}

-- the functions that the table points to
pub data Handler : Type 0 where
  syscall_log syscall_portal syscall_yield syscall_notification_action
        syscall_notification_define_stack syscall_notification_return syscall_notification_unmute
        syscall_notification_mute :
      Handler

abbrev pub handlers : List Handler
handlers =
    syscall_log ∷ syscall_portal ∷ syscall_yield ∷ syscall_notification_action
    ∷ syscall_notification_define_stack ∷ syscall_notification_return ∷ syscall_notification_unmute
    ∷ syscall_notification_mute ∷ []

-- no pointer of the table is NULL
abbrev pub syscall_handles : List (Option Handler)
syscall_handles = map some handlers

-- of CORE_LOCAL: the last error, and the permissions of the current context; `rest` is all else
pub record Machine (W : Type 0) : Type 0 where
  pub error : ℕ
  pub sysperm : Option ℕ
  pub rest : W

module _ (W : Type 0) (handler : Handler → Machine W → ℕ × Machine W) where
  abbrev pub sysret : ℕ → ℕ → Machine W → ℕ × Machine W
  sysret ret error m =
      (sign_extend (if error == 0 then ret else error), record m { error = sign_extend error })

  -- `panic` is a fault.
  pub syscall_handler : ℕ → Machine W → Run (ℕ × Machine W)
  syscall_handler rax m =
      let index = rax % 2 ^ 32 in
      elim (leb (length syscall_handles) (sign_extend index)) [
        | true ↦ ok (sysret minus_one_int 0 m)
        | false ↦ elim m.sysperm [
          | none ↦ fault
          | some perm ↦ elim (bit_and perm (2 ^ index) == 0) [
            | false ↦ ok (sysret minus_one_int 0 m)
            | true ↦ elim (get_elem? syscall_handles index) [
              | none ↦ fault
              | some none ↦ ok (sysret minus_one_int 0 m)
              | some (some h) ↦
                  let (error, m') = handler h m in
                  ok (sysret (if error == 0 then 0 else error) error m')
            ]
          ]
        ]
      ]

-- ===== src/Syscall/Tests.antt =====
-- System calls of a context that may not call the portal, with handlers that return fixed results.
use rock.Base.{ℕ, ◌-◌, ◌^◌, ◌≡◌, refl, some, minus_one, ok}
use rock.Syscall.{Handler, syscall_log, Machine, syscall_handler}
use rock.Syscall.Dispatch.{Outcome, syscall_handler-Outcome}

abbrev machine : Machine Unit
machine = record { error = 9; sysperm = some 2; rest = tt }

-- the log fails with -2
abbrev results : Handler → Machine Unit → ℕ × Machine Unit
results syscall_log m = (2 ^ 32 - 2, m)
results h m = (0, m)

log_fails :
    syscall_handler Unit results 0 machine ≡ ok (2 ^ 64 - 2, record machine { error = 2 ^ 64 - 2 })
unfolding syscall_handler
log_fails = refl

portal_denied :
    syscall_handler Unit results 1 machine ≡ ok (minus_one, record machine { error = 0 })
unfolding syscall_handler
portal_denied = refl

negative_index :
    syscall_handler Unit results (2 ^ 32 - 1) machine ≡ ok (minus_one, record machine { error = 0 })
unfolding syscall_handler
negative_index = refl

syscall_handler-Outcome_example :
    Outcome Unit results 0 machine (syscall_handler Unit results 0 machine)
syscall_handler-Outcome_example = syscall_handler-Outcome Unit results 0 machine

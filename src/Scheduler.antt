-- ===== src/Scheduler.antt =====
-- kernel/core/scheduler.c and scheduler.h, with the locals of a core of kernel/arch/x86/smp.h.
-- A pointer to a context is its index; that of an FPU area or a page table is an address. `iretq`
-- enters the registers that reschedule restores.
pub mod Create
pub mod Switch
pub mod Resume
pub mod Delivery
mod Tests
use rock.Base.{
  ℕ, ◌+◌, bit_and, Bool, true, false, Option, none, some, List, [], ◌≡◌, ◌==◌, if◌then◌else◌,
  get_elem?, set, Run, ok, fault, deadlock, ◌>>=◌,
}
use rock.Interrupts.Handler.{Registers}
use rock.Notification.{UserContext, notification_dispatch}

pub record Stack : Type 0 where
  pub sp : ℕ
  pub size : ℕ
  pub flags : ℕ

-- `struct context`, without its lock and the names of its server
pub record TaskContext : Type 0 where
  pub user_gs_base : ℕ
  pub user_fs_base : ℕ
  pub kernel_stack : Stack
  pub user_stack : Stack
  pub notification : rock.Notification.Context
  pub cid : ℕ
  pub sysperm : ℕ
  pub page_table : ℕ
  pub regs : Registers
  pub fpu_context : ℕ

-- the locals of a core; a scheduling server has a context or none
pub record CpuLocal : Type 0 where
  pub scheduling_server : Option (Option ℕ)
  pub thread_queue : List ℕ
  pub delivery_stack : List ℕ
  pub current_context : Option ℕ

-- the instructions and the functions of other parts that a switch uses
pub record Machine : Type 1 where
  pub State : Type 0
  pub swap_tables : State → ℕ → Run State
  pub fpu_save : State → ℕ → Run State
  pub fpu_rstor : State → ℕ → Run State
  pub get_user_fs : State → ℕ
  pub get_user_gs : State → ℕ
  pub set_user_fs : State → ℕ → State
  pub set_user_gs : State → ℕ → State
  pub end_of_interrupt : State → State
  pub swapgs : State → State

-- VECTOR_POP of fayt/vector.h, where none is -1
pub record Vector : Type 0 where
  pub pop : List ℕ → Option (ℕ × List ℕ)
  pub pop-empty : pop [] ≡ none

-- reschedule returns to the code that was interrupted, or enters other registers
pub data Switched : Type 0 where
  returns : Switched
  enters : Registers → Switched

-- the user context that a context runs in, if it has one
abbrev pub ucontext_of : TaskContext → Run (Option UserContext)
ucontext_of c = elim c.notification.ucontext [
  | none ↦ ok none
  | some i ↦ elim (get_elem? c.notification.ucontexts i) [ none ↦ fault | some u ↦ ok (some u) ]
]

-- `*fpu_context` and `*r`
abbrev pub saved : TaskContext → Option UserContext → ℕ × Registers
saved c none = (c.fpu_context, c.regs)
saved c (some u) = (u.fpu_context, u.regs)

-- `*r = *regs`
abbrev pub with_regs : TaskContext → Registers → TaskContext
with_regs c regs = elim c.notification.ucontext [
  | none ↦ record c { regs = regs }
  | some i ↦ elim (get_elem? c.notification.ucontexts i) [
    | none ↦ c
    | some u ↦ record c {
      notification = record c.notification {
        ucontexts = set c.notification.ucontexts i (record u { regs = regs });
      };
    }
  ]
]

module _ (machine : Machine) (vector : Vector) where
  open machine use {
    State, swap_tables, fpu_save, fpu_rstor, get_user_fs, get_user_gs, set_user_fs, set_user_gs,
    end_of_interrupt, swapgs,
  }

  pub record Sched : Type 0 where
    pub contexts : List TaskContext
    pub core : CpuLocal
    pub locked : Bool
    pub rest : State

  -- the context of the scheduling server
  abbrev pub server_context : CpuLocal → Option ℕ
  server_context core = elim core.scheduling_server [ none ↦ none | some context ↦ context ]

  -- the context to run next, if there is one
  pub next_of : CpuLocal → Option ℕ × CpuLocal
  next_of core = elim (vector.pop core.delivery_stack) [
    | some (next, more) ↦ (some next, record core { delivery_stack = more })
    | none ↦ elim (vector.pop core.thread_queue) [
      | some (next, more) ↦ (some next, record core { thread_queue = more })
      | none ↦ (server_context core, core)
    ]
  ]

  -- the registers and the rest of the context that was interrupted
  pub save_current : Sched → Registers → Run Sched
  save_current sc regs = elim sc.core.current_context [
    | none ↦ ok sc
    | some current ↦ elim (get_elem? sc.contexts current) [
      | none ↦ fault
      | some c ↦ do
        u ← ucontext_of c
        rest ← fpu_save sc.rest (saved c u).0
        ok (record sc {
          contexts = set sc.contexts current (record (with_regs c regs) {
            user_fs_base = get_user_fs rest;
            user_gs_base = get_user_gs rest;
          });
          rest = rest;
        })
    ]
  ]

  -- SWAP_TLS
  abbrev pub swap_tls : State → Registers → State
  swap_tls s regs = if bit_and regs.cs 0x3 == 0x3 then swapgs s else s

  -- from the choice of `fpu_context` and `r` of the next context on
  pub enter_next : Sched → ℕ → Run (Switched × Sched)
  enter_next sc next = elim (get_elem? sc.contexts next) [
    | none ↦ fault
    | some c ↦ do
      u ← ucontext_of c
      s1 ← swap_tables sc.rest c.page_table
      s2 ← fpu_rstor s1 (saved c u).0
      let s3 = set_user_gs (set_user_fs s2 c.user_fs_base) c.user_gs_base
      ok (
        enters (saved c u).1,
        record sc {
          core = record sc.core { current_context = some next };
          locked = false;
          rest = swap_tls (end_of_interrupt s3) c.regs;
        },
      )
  ]

  -- from `finish` on
  pub switch_to : ℕ → Sched → Registers → ℕ → Run (Switched × Sched)
  switch_to fuel sc regs next = elim (get_elem? sc.contexts next) [
    | none ↦ fault
    | some c ↦ do
      r ← notification_dispatch fuel c.notification
      let dispatched = record sc {
        contexts = set sc.contexts next (record c { notification = r.1 });
      }
      sc' ← save_current dispatched regs
      enter_next sc' next
  ]

  pub reschedule : ℕ → Sched → Registers → Run (Switched × Sched)
  reschedule fuel sc regs = elim sc.locked [
    | true ↦ deadlock
    | false ↦
        let chosen = next_of sc.core in
        elim chosen.0 [
          | none ↦ ok (returns, record sc { core = chosen.1 })
          | some next ↦ switch_to fuel (record sc { core = chosen.1; locked = true }) regs next
        ]
  ]

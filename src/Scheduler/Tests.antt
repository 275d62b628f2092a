-- ===== src/Scheduler/Tests.antt =====
-- kernel/core/scheduler.c.
use rock.Base.{
  ℕ, get_elem?, set, ◌+◌, ◌≡◌, refl, true, false, Option, none, some, List, [], ◌∷◌, Run, ok, fault,
  deadlock, out_of_fuel, Leaves, ◌==◌, if◌then◌else◌,
}
use rock.Fayt.Models.{rounding, assoc, counter}
use rock.Interrupts.Handler.{Registers, zero_registers}
use rock.Notification.{
  UserStack, UserContext, NotificationAction, notification_dispatch, dispatch_loop, deliver,
  get_ucontext, first_inactive, free_stack, handler_context,
}
use rock.Notification.Queue.{Notification, notification_pop, pop_loop}
use rock.Notification.Quiet.{no_queue}
use rock.Notification.Fpu.{empty}
use rock.Scheduler.{
  Stack, TaskContext, CpuLocal, Machine, Vector, Sched, Switched, returns, enters, next_of,
  save_current, enter_next, switch_to, reschedule,
}
use rock.Scheduler.Create.{
  ContextMemory, ContextTable, Created, create_blank_context, new_context, search_context,
  create_blank_context-Created, copies,
}
use rock.Scheduler.Resume.{reschedule-resumes}
use rock.Scheduler.Delivery.{
  Settled, reschedule-Settled, reschedule-current, reschedule-deadlock, reschedule-NoFpu,
}

-- the FS base and the GS base; an FPU area is there at each address but 0
abbrev load_fpu : ℕ × ℕ → ℕ → Run (ℕ × ℕ)
load_fpu s p = if p == 0 then fault else ok s

abbrev machine : Machine
machine = record {
  State = ℕ × ℕ;
  swap_tables = λ s t. ok s;
  fpu_save = load_fpu;
  fpu_rstor = load_fpu;
  get_user_fs = λ s. s.0;
  get_user_gs = λ s. s.1;
  set_user_fs = λ s x. (x, s.1);
  set_user_gs = λ s x. (s.0, x);
  end_of_interrupt = λ s. s;
  swapgs = λ s. s;
}

-- the same with an area at 0
abbrev lenient : Machine
lenient = record machine { fpu_save = λ s p. ok s; fpu_rstor = λ s p. ok s }

abbrev pop_first : List ℕ → Option (ℕ × List ℕ)
pop_first [] = none
pop_first (x ∷ xs) = some (x, xs)

abbrev vector : Vector
vector = record { pop = pop_first; pop-empty = refl }

abbrev at_rip : ℕ → Registers
at_rip rip = record zero_registers { rip = rip; cs = 0x43; ss = 0x3b }

abbrev stack : Stack
stack = record { sp = 0; size = 0; flags = 0 }

-- a context that is at `rip`, without notifications
abbrev task : ℕ → TaskContext
task rip = record {
  user_gs_base = 0;
  user_fs_base = rip + 1;
  kernel_stack = stack;
  user_stack = stack;
  notification = record {
    stacks = [];
    actions = [];
    queue = none;
    ucontexts = [];
    ucontext = none;
    ucontext_idx = 0;
    locked = false;
  };
  cid = 0;
  sysperm = 0;
  page_table = 0x1000;
  regs = at_rip rip;
  fpu_context = 0x9000;
}

abbrev core : ℕ → List ℕ → CpuLocal
core current queue = record {
  scheduling_server = none;
  thread_queue = queue;
  delivery_stack = [];
  current_context = some current;
}

-- the first task runs, the second is to be next
abbrev start : Sched machine vector
start = record {
  contexts = task 100 ∷ task 200 ∷ [];
  core = core 0 (1 ∷ []);
  locked = false;
  rest = (7, 8);
}

abbrev first_left : TaskContext
first_left = record (task 100) { regs = at_rip 111; user_fs_base = 7; user_gs_base = 8 }

-- the second runs
abbrev second_runs : Sched machine vector
second_runs = record start {
  contexts = first_left ∷ task 200 ∷ [];
  core = core 1 [];
  rest = (201, 0);
}

to_second : reschedule machine vector 9 start (at_rip 111) ≡ ok (enters (at_rip 200), second_runs)
unfolding reschedule switch_to next_of save_current enter_next notification_dispatch
to_second = refl

-- the first is to be next again
abbrev later : Sched machine vector
later = record second_runs { core = core 1 (0 ∷ []) }

abbrev first_runs : Sched machine vector
first_runs = record start {
  contexts =
      first_left
      ∷ record (task 200) { regs = at_rip 222; user_fs_base = 201; user_gs_base = 0 }
      ∷ [];
  core = core 0 [];
  rest = (7, 8);
}

to_first : reschedule machine vector 9 later (at_rip 222) ≡ ok (enters (at_rip 111), first_runs)
unfolding reschedule switch_to next_of save_current enter_next notification_dispatch
to_first = refl

first_chosen : (next_of machine vector later.core).0 ≡ some 0
unfolding next_of
first_chosen = refl

second_chosen : (next_of machine vector start.core).0 ≡ some 1
unfolding next_of
second_chosen = refl

reschedule-resumes_example : enters (at_rip 111) ≡ enters (at_rip 111)
reschedule-resumes_example =
    reschedule-resumes machine vector 9 9 start second_runs later first_runs (at_rip 111)
      (at_rip 200) (at_rip 222) (enters (at_rip 111)) 0 first_left refl to_second refl refl
      first_chosen (λ e. cc) (no_queue refl) to_first

reschedule-Settled_example :
    Leaves
      (reschedule machine vector 9 start (at_rip 111))
      (λ r. (r.1.locked ≡ false) × Settled machine vector start r.0 r.1)
reschedule-Settled_example = reschedule-Settled machine vector 9 start (at_rip 111)

-- a notification for the second task
abbrev hello : Notification
hello = record { refcnt = 1; notnum = 3; share_vaddr = 0; info = 77 }

abbrev with_hello : TaskContext
with_hello = record (task 200) {
  notification = record {
    stacks =
        record {
          user_sp = 0x7000;
          user_size = 0x1000;
          kernel_sp = 0;
          kernel_size = 0;
          active = false;
        }
        ∷ [];
    actions = copies 64 (record { handler = 0x1002 });
    queue = some (record {
      queue = [] ∷ [] ∷ (hello ∷ []) ∷ copies 61 [];
      mask = 0;
      active = true;
      pending = 4;
      locked = false;
    });
    ucontexts = [];
    ucontext = none;
    ucontext_idx = 0;
    locked = false;
  };
}

abbrev notified : Sched lenient vector
notified = record {
  contexts = task 100 ∷ with_hello ∷ [];
  core = core 0 (1 ∷ []);
  locked = false;
  rest = (7, 8);
}

abbrev value_of : {A : Type 0} → A → Run A → A
value_of other (ok a) = a
value_of other fault = other
value_of other deadlock = other
value_of other out_of_fuel = other

abbrev delivered : ℕ × rock.Notification.Context
delivered = value_of (1, with_hello.notification) (notification_dispatch 9 with_hello.notification)

abbrev helped : TaskContext
helped = record with_hello { notification = delivered.1 }

abbrev handler_runs : Switched × Sched lenient vector
handler_runs = value_of (returns, notified) (reschedule lenient vector 9 notified (at_rip 111))

delivers : notification_dispatch 9 with_hello.notification ≡ ok (0, delivered.1)
unfolding notification_dispatch dispatch_loop deliver notification_pop pop_loop get_ucontext
    first_inactive free_stack handler_context
delivers = refl

-- the handler is entered
enters_handler :
    reschedule lenient vector 9 notified (at_rip 111) ≡ ok (handler_runs.0, handler_runs.1)
unfolding reschedule switch_to next_of save_current enter_next notification_dispatch dispatch_loop
    deliver notification_pop pop_loop get_ucontext first_inactive free_stack handler_context
enters_handler = refl

left_helped : get_elem? handler_runs.1.contexts 1 ≡ some helped
unfolding reschedule switch_to next_of save_current enter_next notification_dispatch dispatch_loop
    deliver notification_pop pop_loop get_ucontext first_inactive free_stack handler_context
left_helped = refl

notified_chosen : (next_of lenient vector notified.core).0 ≡ some 1
unfolding next_of
notified_chosen = refl

reschedule-deadlock_example :
    reschedule lenient vector 9 (record notified { contexts = task 100 ∷ helped ∷ [] }) (at_rip 333)
    ≡ deadlock
reschedule-deadlock_example =
    reschedule-deadlock lenient vector 9 9 notified handler_runs.1
      (record notified { contexts = task 100 ∷ helped ∷ [] }) (at_rip 111) (at_rip 333)
      handler_runs.0 1 with_hello helped delivered.1 notified_chosen (λ e. cc) refl delivers
      enters_handler left_helped refl notified_chosen

-- the current one is chosen, and has a notification
abbrev again : Sched lenient vector
again = record {
  contexts = with_hello ∷ task 200 ∷ [];
  core = core 0 (0 ∷ []);
  locked = false;
  rest = (7, 8);
}

abbrev again_after : Switched × Sched lenient vector
again_after = value_of (returns, again) (reschedule lenient vector 9 again (at_rip 111))

again_runs : reschedule lenient vector 9 again (at_rip 111) ≡ ok (again_after.0, again_after.1)
unfolding reschedule switch_to next_of save_current enter_next notification_dispatch dispatch_loop
    deliver notification_pop pop_loop get_ucontext first_inactive free_stack handler_context
again_runs = refl

again_chosen : (next_of lenient vector again.core).0 ≡ some 0
unfolding next_of
again_chosen = refl

reschedule-current_example : again_after.0 ≡ enters (at_rip 111)
reschedule-current_example =
    reschedule-current lenient vector 9 again again_after.1 (at_rip 111) again_after.0 0
      again_chosen refl again_runs

-- the second task is notified where there is no area at 0
abbrev strict_notified : Sched machine vector
strict_notified = record {
  contexts = task 100 ∷ with_hello ∷ [];
  core = core 0 (1 ∷ []);
  locked = false;
  rest = (7, 8);
}

strict_chosen : (next_of machine vector strict_notified.core).0 ≡ some 1
unfolding next_of
strict_chosen = refl

delivered_to : delivered.1.ucontext ≡ some 0
unfolding notification_dispatch dispatch_loop deliver notification_pop pop_loop get_ucontext
    first_inactive free_stack handler_context
delivered_to = refl

first_saved :
    save_current machine vector
      (record strict_notified {
        core = (next_of machine vector strict_notified.core).1;
        locked = true;
        contexts =
            set strict_notified.contexts 1 (record with_hello { notification = delivered.1 });
      })
      (at_rip 111)
    ≡ ok (record strict_notified {
      core = core 0 [];
      locked = true;
      contexts = first_left ∷ helped ∷ [];
      rest = (7, 8);
    })
unfolding save_current next_of
first_saved = refl

reschedule-NoFpu_example : reschedule machine vector 9 strict_notified (at_rip 111) ≡ fault
reschedule-NoFpu_example =
    reschedule-NoFpu machine vector 9 strict_notified
      (record strict_notified {
        core = core 0 [];
        locked = true;
        contexts = first_left ∷ helped ∷ [];
        rest = (7, 8);
      })
      (at_rip 111) 1 0 with_hello delivered.1 (λ s. refl) (λ s t. (s, refl)) refl strict_chosen
      (λ e. cc) refl empty delivers delivered_to first_saved

-- a blank context in an empty table
abbrev context_memory : ContextMemory
context_memory = record {
  State = ℕ;
  default_table = λ s. ok (s, s + 0x1000);
  pmm_alloc = λ s n align. ok (s, s + 0x10000);
  alloc_fpu = λ s. (s, s + 512);
}

abbrev no_contexts : ContextTable assoc counter
no_contexts = record { cid_bitmap = 5; context_table = [] }

abbrev made : ℕ × Option TaskContext × ContextTable assoc counter × ℕ
made =
    value_of (1, none, no_contexts, 0)
      (create_blank_context assoc counter context_memory rounding 0x100000 0x200000 no_contexts 3
        (some (task 0)))

abbrev task_of : Option TaskContext → TaskContext
task_of none = task 0
task_of (some c) = c

made_ok :
    create_blank_context assoc counter context_memory rounding 0x100000 0x200000 no_contexts 3
      (some (task 0))
    ≡ ok (0, some (task_of made.1), made.2, made.3)
unfolding create_blank_context new_context
made_ok = refl

fresh_id : search_context assoc counter no_contexts (task_of made.1).cid ≡ none
unfolding search_context
fresh_id = refl

create_blank_context-Created_example :
    Created assoc counter context_memory rounding 0x100000 no_contexts made.2 3 (task_of made.1)
create_blank_context-Created_example =
    create_blank_context-Created assoc counter context_memory rounding 0x100000 0x200000 made.3
      no_contexts made.2 3 (task 0) (task_of made.1) fresh_id made_ok

-- ===== src/Sched/Tests.antt =====
-- Trees of up to three threads, and two cores.
use rock.Base.{ℕ, ◌-◌, ◌*◌, ◌^◌, ◌≡◌, refl, true, false, some, [], ◌∷◌, ok, fault}
use rock.Sched.{
  Thread, SchedDescriptor, Tree, leaf, node, walk, optimal_sched, thread_weight, traverse_and_queue,
}
use rock.Sched.Choice.{EndOf, traverse_and_queue-EndOf}

abbrev thread : ℕ → Thread
thread v = record { cid = v; cgroup = 0; weight = 1024; vruntime = v; runtime = 0 }

-- 5 with the children 3 and 8, of which 3 has the child 4
abbrev left : Tree
left = node leaf (thread 3) (node leaf (thread 4) leaf)

abbrev right : Tree
right = node leaf (thread 8) leaf

-- the walk does not end at the least thread
picks_four : walk (node left (thread 5) right) ≡ some (thread 4)
unfolding walk
picks_four = refl

traverse_and_queue-EndOf_example :
    (t : Thread) × (traverse_and_queue (node left (thread 5) right) ≡ (0, some t))
    × EndOf t (node left (thread 5) right)
traverse_and_queue-EndOf_example = traverse_and_queue-EndOf left (thread 5) right

abbrev core : ℕ → ℕ → SchedDescriptor
core id load = record { processor_id = id; queue_default_refill = 0; load = load; cid = id }

busy_chosen :
    optimal_sched (some (record { own = true; desc = core 0 2 })) (core 0 2 ∷ core 1 9 ∷ [])
    ≡ some (record { own = false; desc = core 1 9 })
unfolding optimal_sched
busy_chosen = refl

-- of the nice values -20 to 19, those below -1 leave the range of an int
weight_of_0 : thread_weight 0 ≡ ok (1024 * 2 ^ 19)
unfolding thread_weight
weight_of_0 = refl

weight_of_minus_2 : thread_weight (2 ^ 32 - 2) ≡ fault
unfolding thread_weight
weight_of_minus_2 = refl

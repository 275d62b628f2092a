-- ===== src/Sched.antt =====
-- servers/sched/sched.c and sched.h: the run queue of the scheduling server.
-- The tree of threads is fayt's, whose insertion is a parameter, as is whether the shared link can be
-- operated on. An `int` is its 32 bits, and a left shift of it that leaves its range is a fault.
pub mod Choice
mod Tests
use rock.Base.{
  ℕ, zero, suc, ◌+◌, ◌-◌, ◌*◌, ◌^◌, ◌%◌, Bool, true, false, Option, none, some, List, [], ◌∷◌, leb,
  ltb, ◌==◌, if◌then◌else◌, Run, ok, fault, ◌>>=◌, int_lt,
}

pub record Thread : Type 0 where
  pub cid : ℕ
  pub cgroup : ℕ
  pub weight : ℕ
  pub vruntime : ℕ
  pub runtime : ℕ

pub record SchedDescriptor : Type 0 where
  pub processor_id : ℕ
  pub queue_default_refill : ℕ
  pub load : ℕ
  pub cid : ℕ

pub record SchedQueueConfig : Type 0 where
  pub cid : ℕ
  pub cgroup : ℕ
  pub nice : ℕ
  pub offload : ℕ

-- a thread with its children `left` and `right`
pub data Tree : Type 0 where
  leaf : Tree
  node : Tree → Thread → Tree → Tree

-- the walk from a thread, given its children; `none` is NULL
unfoldable pub walk : Tree → Option Thread
walk leaf = none
walk (node leaf t leaf) = some t
walk (node (node ll l lr) t leaf) = walk (node ll l lr)
walk (node leaf t (node rl r rr)) = walk (node rl r rr)
walk (node (node ll l lr) t (node rl r rr)) =
    let to_left = walk (node ll l lr) in
    let to_right = walk (node rl r rr) in if int_lt r.vruntime l.vruntime then to_right else to_left

-- the descriptor that is the best so far, and whether it is the server's own
pub record Best : Type 0 where
  pub own : Bool
  pub desc : SchedDescriptor

-- the loop over the descriptors of all cores; `none` is NULL
unfoldable pub optimal_sched : Option Best → List SchedDescriptor → Option Best
optimal_sched best [] = best
optimal_sched none (d ∷ ds) = optimal_sched (some (record { own = false; desc = d })) ds
optimal_sched (some b) (d ∷ ds) =
    optimal_sched (some (if int_lt b.desc.load d.load then record { own = false; desc = d } else b))
      ds

-- `1024 * (1 << (19 - nice))`
unfoldable pub thread_weight : ℕ → Run ℕ
thread_weight nice =
    if int_lt 19 nice
    then fault
    else if leb 21 ((19 + 2 ^ 32 - nice) % 2 ^ 32)
    then fault
    else ok (1024 * 2 ^ ((19 + 2 ^ 32 - nice) % 2 ^ 32))

-- what notify_enqueue_thread comes to: nothing, a notification to the core of that cid, or a tree
-- with the thread
pub data Enqueued : Type 0 where
  unchanged : Enqueued
  offloaded : ℕ → Enqueued
  queued : Tree → Enqueued

module _ (insert : Tree → Thread → Option Tree) where
  -- from `exit` on
  unfoldable pub enqueue_here : Tree → SchedQueueConfig → Run Enqueued
  enqueue_here tree config = thread_weight config.nice >>= λ weight.
      elim (insert tree (record {
        cid = config.cid;
        cgroup = config.cgroup;
        weight = weight;
        vruntime = 0;
        runtime = 0;
      })) [ none ↦ ok unchanged | some t ↦ ok (queued t) ]

  unfoldable pub notify_enqueue_thread :
      Bool
      → Option SchedDescriptor
      → List SchedDescriptor
      → Tree
      → Option SchedQueueConfig
      → Run Enqueued
  notify_enqueue_thread link sched_desc descs tree data_config = elim data_config [
    | none ↦ ok unchanged
    | some config ↦
        if config.offload == 0
        then enqueue_here tree config
        else if link
        then (elim (optimal_sched
            (elim sched_desc [ none ↦ none | some d ↦ some (record { own = true; desc = d }) ])
            descs) [
              | none ↦ enqueue_here tree config
              | some b ↦ if b.own then enqueue_here tree config else ok (offloaded b.desc.cid)
            ])
        else ok unchanged
  ]

-- `*thread` and the value returned; `thread` is not NULL
unfoldable pub traverse_and_queue : Tree → ℕ × Option Thread
traverse_and_queue thread_tree = (0, walk thread_tree)

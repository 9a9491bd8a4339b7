-- ===== src/Cycle/Tests.antt =====
-- A run of two calls on a queue of two nodes, and the guarantees of that run.
use mathlib.Core.Path.{subst}
use nt_shm.Common.{
  zero, suc, ◌≡◌, ◌≢◌, ◌≤◌, refl, List, [], ◌∷◌, ◌++◌, none, some, true, arith, length,
}
use nt_shm.Common.Run.{ok, fault}
use nt_shm.Common.Weigh.{weigh}
use nt_shm.Cycle.{
  Task, Cycle, System, Config, Steps, push_wait_slot, push_lock, push_store, push_advance,
  start_push, Thread, pop_wait_item, start_pop, execute, here, next, step, task_queue_create,
}
use nt_shm.Cycle.Counts.{in_lock}
use nt_shm.Cycle.Invariant.{no_node}
use nt_shm.Cycle.Reach.{initial}
use nt_shm.Cycle.Progress.{Stuck, WaitsForOther, no_deadlock}
use nt_shm.Cycle.Guarantees.{first_in_first_out, steps-safe}

abbrev working : System
working = record {
  shm_open = true;
  ftruncate = true;
  mmap = true;
  sem_init_mutex = true;
  sem_init_slots = true;
  sem_init_items = true;
  memory = no_node ∷ no_node ∷ [];
}

abbrev two_nodes : Cycle
two_nodes = record {
  head = 0;
  tail = 0;
  max_length = 2;
  mutex = 1;
  slots = 2;
  items = 0;
  nodes = record (no_node) { next = 1 } ∷ record (no_node) { next = 0 } ∷ [];
}

create_result : task_queue_create working 2 ≡ some two_nodes
unfolding task_queue_create
create_result = refl

abbrev sample_task : Task
sample_task = record { client_fd = 7; data_ptr = 4096; data_len = 12 }

-- A push waits for a slot, takes the lock and stores its task.
abbrev stored : Config
stored = record {
  queue = record two_nodes {
    slots = 1;
    mutex = 0;
    nodes = record { task = sample_task; next = 1 } ∷ record (no_node) { next = 0 } ∷ [];
  };
  threads = push_advance sample_task ∷ [];
  pushed = sample_task ∷ [];
  popped = [];
}

stored-reached : Steps (initial two_nodes) stored
unfolding step
stored-reached =
    next
      (next
        (next (next here (start_push _ sample_task))
          (execute _ 0 (push_wait_slot sample_task) _ _ refl refl))
        (execute _ 0 (push_lock sample_task) _ _ refl refl))
      (execute _ 0 (push_store sample_task) _ _ refl refl)

first_in_first_out_example :
    (rest : List Task) × (stored.pushed ≡ stored.popped ++ rest) × (length rest ≤ 2)
first_in_first_out_example =
    first_in_first_out working 2 two_nodes stored (omega arith) refl create_result stored-reached

steps-safe_example :
    (weigh in_lock stored.threads ≤ 1) × (step stored.queue (push_advance sample_task) ≢ fault)
steps-safe_example =
    steps-safe working 2 two_nodes stored (omega arith) refl create_result stored-reached 0
      (push_advance sample_task) refl

-- A pop waits on the empty queue.
abbrev waiting : Config
waiting = record { queue = two_nodes; threads = pop_wait_item ∷ []; pushed = []; popped = [] }

waiting-Stuck : Stuck waiting
unfolding step
waiting-Stuck zero thread present =
    subst (λ (t : Thread). step two_nodes t ≡ ok none) (from_some present) refl
  where
    from_some : {a b : Thread} → some a ≡ some b → a ≡ b
    from_some e = ground arith
waiting-Stuck (suc i) thread present = ground arith

no_deadlock_example : WaitsForOther waiting pop_wait_item
no_deadlock_example =
    no_deadlock working 2 two_nodes waiting (omega arith) refl create_result
      (next here (start_pop (initial two_nodes))) waiting-Stuck 0 pop_wait_item refl

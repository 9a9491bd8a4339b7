-- ===== src/Cycle.antt =====
-- nt_cycle.c: the bounded queue of tasks in shared memory, a ring of nodes under three semaphores.
--
-- A pointer to a node is its index in `nodes`; all processes see the queue at the same addresses.
-- A semaphore is its value. A thread executes a call of task_queue_push() or task_queue_pop()
-- statement by statement; sem_wait() on 0 does not step. The results of the calls of the system in
-- task_queue_create() are parameters.
pub mod Ring
pub mod Counts
pub mod Invariant
pub mod Critical
pub mod Fifo
pub mod Reach
pub mod Guarantees
pub mod Progress
mod Tests
use nt_shm.Common.{
  ℕ, zero, suc, ◌+◌, ◌-◌, ◌%◌, ◌≡◌, List, [], ◌∷◌, ◌++◌, Option, none, some, Bool, true, false, ltb,
  if◌then◌else◌, length, get_elem?, set,
}
use nt_shm.Common.Run.{Run, ok, fault, ◌>>=◌, read}

pub record Task : Type 0 where
  pub client_fd : ℕ
  pub data_ptr : ℕ
  pub data_len : ℕ

pub record Node : Type 0 where
  pub task : Task
  pub next : ℕ

pub record Cycle : Type 0 where
  pub head : ℕ
  pub tail : ℕ
  pub max_length : ℕ
  pub mutex : ℕ
  pub slots : ℕ
  pub items : ℕ
  pub nodes : List Node

-- What the calls of the system return in task_queue_create(): success or not, and the nodes that
-- the mapped memory holds.
pub record System : Type 0 where
  pub shm_open : Bool
  pub ftruncate : Bool
  pub mmap : Bool
  pub sem_init_mutex : Bool
  pub sem_init_slots : Bool
  pub sem_init_items : Bool
  pub memory : List Node

-- The loop over the nodes, from i: `queue->nodes[i].next = &queue->nodes[(i + 1) % max_length]`
unfoldable pub link_nodes : ℕ → ℕ → List Node → List Node
link_nodes max_length i [] = []
link_nodes max_length i (node ∷ nodes) =
    record node { next = (i + 1) % max_length } ∷ link_nodes max_length (i + 1) nodes

-- NULL is `none`.
unfoldable pub task_queue_create : System → ℕ → Option Cycle
unfolding link_nodes
task_queue_create system max_length =
    let queue : Cycle = record {
      head = 0;
      tail = 0;
      max_length = max_length;
      mutex = 1;
      slots = max_length;
      items = 0;
      nodes = link_nodes max_length 0 system.memory;
    } in
    if system.shm_open
    then if system.ftruncate
      then if system.mmap
        then if system.sem_init_mutex
          then if system.sem_init_slots
            then if system.sem_init_items then some queue else none
            else none
          else none
        else none
      else none
    else none

-- Where a thread stands: before which statement of task_queue_push() or task_queue_pop(), with the
-- task that it pushes or has taken.
pub data Thread : Type 0 where
  push_wait_slot push_lock push_store push_advance push_unlock push_post : Task → Thread
  pop_wait_item pop_lock pop_load : Thread
  pop_advance pop_unlock pop_post : Task → Thread
  push_returned : Thread
  pop_returned : Task → Thread

-- A call that waits does not step.
abbrev pub sem_wait : ℕ → (ℕ → Cycle × Thread) → Option (Cycle × Thread)
sem_wait zero rest = none
sem_wait (suc value) rest = some (rest value)

-- An assignment to the task of a node
abbrev pub store_task : List Node → ℕ → Task → List Node
store_task [] i task = []
store_task (node ∷ nodes) zero task = record node { task = task } ∷ nodes
store_task (node ∷ nodes) (suc i) task = node ∷ store_task nodes i task

-- One statement of a thread: the queue and the thread after it.
unfoldable pub step : Cycle → Thread → Run (Option (Cycle × Thread))
step queue (push_wait_slot task) =
    ok (sem_wait queue.slots λ slots. (record queue { slots = slots }, push_lock task))
step queue (push_lock task) =
    ok (sem_wait queue.mutex λ mutex. (record queue { mutex = mutex }, push_store task))
step queue (push_store task) =
    if ltb queue.tail (length queue.nodes)
    then ok
        (some (record queue { nodes = store_task queue.nodes queue.tail task }, push_advance task))
    else fault
step queue (push_advance task) = read queue.nodes queue.tail >>= λ node.
    ok (some (record queue { tail = node.next }, push_unlock task))
step queue (push_unlock task) = ok (some (record queue { mutex = queue.mutex + 1 }, push_post task))
step queue (push_post task) = ok (some (record queue { items = queue.items + 1 }, push_returned))
step queue pop_wait_item =
    ok (sem_wait queue.items λ items. (record queue { items = items }, pop_lock))
step queue pop_lock = ok (sem_wait queue.mutex λ mutex. (record queue { mutex = mutex }, pop_load))
step queue pop_load =
    read queue.nodes queue.head >>= λ node. ok (some (queue, pop_advance node.task))
step queue (pop_advance task) = read queue.nodes queue.head >>= λ node.
    ok (some (record queue { head = node.next }, pop_unlock task))
step queue (pop_unlock task) = ok (some (record queue { mutex = queue.mutex + 1 }, pop_post task))
step queue (pop_post task) = ok (some (record queue { slots = queue.slots + 1 }, pop_returned task))
step queue push_returned = ok none
step queue (pop_returned task) = ok none

-- The queue, all calls so far, and the tasks stored and taken so far, in this order.
pub record Config : Type 0 where
  pub queue : Cycle
  pub threads : List Thread
  pub pushed : List Task
  pub popped : List Task

abbrev pub log_push : Thread → List Task → List Task
log_push (push_store task) pushed = pushed ++ task ∷ []
log_push _ pushed = pushed

abbrev pub log_pop : Thread → Thread → List Task → List Task
log_pop pop_load (pop_advance task) popped = popped ++ task ∷ []
log_pop _ _ popped = popped

-- Thread i has executed one statement.
abbrev pub advance : Config → ℕ → Thread → Cycle → Thread → Config
advance config i thread queue after = record {
  queue = queue;
  threads = set config.threads i after;
  pushed = log_push thread config.pushed;
  popped = log_pop thread after config.popped;
}

-- Any process starts a call at any time, and any thread that does not wait executes its statement.
pub data Step : Config → Config → Type 0 where
  start_push :
      (config : Config) (task : Task)
      → Step config (record config { threads = push_wait_slot task ∷ config.threads })
  start_pop :
      (config : Config) → Step config (record config { threads = pop_wait_item ∷ config.threads })
  execute :
      (config : Config) (i : ℕ) (thread after : Thread) (queue : Cycle)
      → get_elem? config.threads i ≡ some thread
      → step config.queue thread ≡ ok (some (queue, after))
      → Step config (advance config i thread queue after)

pub data Steps : Config → Config → Type 0 where
  here : {config : Config} → Steps config config
  next : {a b c : Config} → Steps a b → Step b c → Steps a c

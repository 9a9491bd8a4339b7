-- ===== src/Cycle/Invariant.antt =====
-- The invariant of the queue and its threads, and the statements that only move semaphores.
use nt_shm.Common.{
  ℕ, zero, suc, ◌+◌, ◌-◌, ◌%◌, ◌≤◌, ◌<◌, ◌≡◌, ◌≢◌, refl, ap, List, [], ◌∷◌, arith, length, get_or,
  set,
}
use nt_shm.Common.Weigh.{weigh, weigh-set}
use nt_shm.Cycle.{Task, Node, Cycle, Thread, Config, push_returned, store_task}
use nt_shm.Cycle.Counts.{
  in_lock, holds_slot, unposted_push, holds_item, unposted_pop, moves_tail, moves_head,
}

abbrev pub no_task : Task
no_task = record { client_fd = 0; data_ptr = 0; data_len = 0 }

abbrev pub no_node : Node
no_node = record { task = no_task; next = 0 }

abbrev pub node_at : Cycle → ℕ → Node
node_at queue i = get_or queue.nodes i no_node

abbrev pub thread_at : Config → ℕ → Thread
thread_at config i = get_or config.threads i push_returned

-- The free nodes are counted by slots, the stored tasks by items, both with the threads under way;
-- the mutex is taken by at most one; the ring holds the tasks from number Q, the next to be taken,
-- to number P, the next to be stored; and the tasks taken are the first Q of those stored.
pub record Inv (c : Config) : Type 0 where
  pub pos : 0 < c.queue.max_length
  pub width : length c.queue.nodes ≡ c.queue.max_length
  pub linked :
      (i : ℕ) → i < c.queue.max_length → (node_at c.queue i).next ≡ (i + 1) % c.queue.max_length
  pub lock : c.queue.mutex + weigh in_lock c.threads ≡ 1
  pub slot_count :
      c.queue.slots + weigh holds_slot c.threads + length c.pushed + weigh unposted_pop c.threads
      ≡ c.queue.max_length + length c.popped
  pub item_count :
      c.queue.items + weigh holds_item c.threads + length c.popped + weigh unposted_push c.threads
      ≡ length c.pushed
  pub at_tail : c.queue.tail ≡ (length c.pushed - weigh moves_tail c.threads) % c.queue.max_length
  pub at_head : c.queue.head ≡ (length c.popped - weigh moves_head c.threads) % c.queue.max_length
  pub taken : weigh moves_head c.threads ≤ length c.popped
  pub window :
      (j : ℕ)
      → length c.popped ≤ j
      → j < length c.pushed
      → (node_at c.queue (j % c.queue.max_length)).task ≡ get_or c.pushed j no_task
  pub fifo : (j : ℕ) → j < length c.popped → get_or c.popped j no_task ≡ get_or c.pushed j no_task

-- The weight of the threads after thread i has become `after`.
pub weigh-step :
    (w : Thread → ℕ) (c : Config) (i : ℕ) (th after : Thread)
    → i < length c.threads
    → thread_at c i ≡ th
    → weigh w (set c.threads i after) + w th ≡ weigh w c.threads + w after
weigh-step w c i th after lt e =
    omega (arith, weigh-set w c.threads i after push_returned lt, ap w e)

-- A statement that changes semaphores only keeps the invariant if it keeps the counts.
pub semaphores-Inv :
    (c : Config) (mutex slots items : ℕ) (threads : List Thread)
    → Inv c
    → mutex + weigh in_lock threads ≡ c.queue.mutex + weigh in_lock c.threads
    → slots + weigh holds_slot threads + weigh unposted_pop threads
      ≡ c.queue.slots + weigh holds_slot c.threads + weigh unposted_pop c.threads
    → items + weigh holds_item threads + weigh unposted_push threads
      ≡ c.queue.items + weigh holds_item c.threads + weigh unposted_push c.threads
    → weigh moves_tail threads ≡ weigh moves_tail c.threads
    → weigh moves_head threads ≡ weigh moves_head c.threads
    → Inv (record c {
      queue = record (c.queue) { mutex = mutex; slots = slots; items = items };
      threads = threads;
    })
semaphores-Inv c mutex slots items threads v locks free live tails heads = record {
  pos = v.pos;
  width = v.width;
  linked = v.linked;
  lock = omega (arith, v.lock);
  slot_count = omega (arith, v.slot_count);
  item_count = omega (arith, v.item_count);
  at_tail = rw tails v.at_tail;
  at_head = rw heads v.at_head;
  taken = omega (arith, heads, v.taken);
  window = v.window;
  fifo = v.fifo;
}

module _ (task : Task) where
  pub length-store_task :
      (nodes : List Node) (i : ℕ) → length (store_task nodes i task) ≡ length nodes
  length-store_task [] i = refl
  length-store_task (node ∷ nodes) zero = refl
  length-store_task (node ∷ nodes) (suc i) = ap suc (length-store_task nodes i)

  pub next-store_task :
      (nodes : List Node) (i j : ℕ)
      → (get_or (store_task nodes i task) j no_node).next ≡ (get_or nodes j no_node).next
  next-store_task [] i j = refl
  next-store_task (node ∷ nodes) zero zero = refl
  next-store_task (node ∷ nodes) zero (suc j) = refl
  next-store_task (node ∷ nodes) (suc i) zero = refl
  next-store_task (node ∷ nodes) (suc i) (suc j) = next-store_task nodes i j

  pub task-store_task :
      (nodes : List Node) (i : ℕ)
      → i < length nodes
      → (get_or (store_task nodes i task) i no_node).task ≡ task
  task-store_task [] i lt = absurd (omega arith)
  task-store_task (node ∷ nodes) zero lt = refl
  task-store_task (node ∷ nodes) (suc i) lt = task-store_task nodes i (omega arith)

  pub other-store_task :
      (nodes : List Node) (i j : ℕ)
      → j ≢ i
      → get_or (store_task nodes i task) j no_node ≡ get_or nodes j no_node
  other-store_task [] i j ne = refl
  other-store_task (node ∷ nodes) zero zero ne = absurd (ne refl)
  other-store_task (node ∷ nodes) zero (suc j) ne = refl
  other-store_task (node ∷ nodes) (suc i) zero ne = refl
  other-store_task (node ∷ nodes) (suc i) (suc j) ne =
      other-store_task nodes i j (λ e. ne (ap suc e))

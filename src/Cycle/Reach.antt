-- ===== src/Cycle/Reach.antt =====
-- The queue that task_queue_create() returns, and interleavings of any number of calls of
-- task_queue_push() and task_queue_pop() on it.
use mathlib.Core.Path.{subst}
use native.Mathlib.Nat.{zero-mod}
use nt_shm.Common.{
  ℕ, zero, suc, ◌+◌, ◌%◌, ◌<◌, ◌≡◌, refl, sym, ap, ◌∙◌, List, [], ◌∷◌, some, arith, length, get_or,
  get_elem?,
}
use nt_shm.Cycle.{
  Node, Cycle, System, Thread, Config, Step, Steps, push_returned, start_push, start_pop, execute,
  here, next, task_queue_create, link_nodes,
}
use nt_shm.Cycle.Invariant.{no_node, Inv, semaphores-Inv}
use nt_shm.Cycle.Fifo.{Outcome, step-Outcome}

-- No call yet.
abbrev pub initial : Cycle → Config
initial queue = record { queue = queue; threads = []; pushed = []; popped = [] }

length-link_nodes : (m i : ℕ) (nodes : List Node) → length (link_nodes m i nodes) ≡ length nodes
unfolding link_nodes
length-link_nodes m i [] = refl
length-link_nodes m i (node ∷ nodes) = ap suc (length-link_nodes m (i + 1) nodes)

next-link_nodes :
    (m i j : ℕ) (nodes : List Node)
    → j < length nodes
    → (get_or (link_nodes m i nodes) j no_node).next ≡ (i + j + 1) % m
unfolding link_nodes
next-link_nodes m i j [] lt = absurd (omega arith)
next-link_nodes m i zero (node ∷ nodes) lt = ap (λ (k : ℕ). k % m) (omega arith)
next-link_nodes m i (suc j) (node ∷ nodes) lt =
    next-link_nodes m (i + 1) j nodes (omega arith) ∙ ap (λ (k : ℕ). k % m) (omega arith)

abbrev linked_queue : System → ℕ → Cycle
linked_queue system m = record {
  head = 0;
  tail = 0;
  max_length = m;
  mutex = 1;
  slots = m;
  items = 0;
  nodes = link_nodes m 0 system.memory;
}

created :
    (system : System) (m : ℕ) (queue : Cycle)
    → task_queue_create system m ≡ some queue
    → linked_queue system m ≡ queue
unfolding task_queue_create
created system m queue e = ground arith

-- The queue that task_queue_create() returns for at least one node satisfies the invariant.
pub create-Inv :
    (system : System) (m : ℕ) (queue : Cycle)
    → 0 < m
    → length system.memory ≡ m
    → task_queue_create system m ≡ some queue
    → Inv (initial queue) × (queue.max_length ≡ m)
create-Inv system m queue pos size e =
    subst (λ (q : Cycle). Inv (initial q) × (q.max_length ≡ m)) (created system m queue e)
      (
        record {
          pos = pos;
          width = length-link_nodes m 0 system.memory ∙ size;
          linked = λ i lt.
              next-link_nodes m 0 i system.memory (omega (arith, size))
              ∙ ap (λ (k : ℕ). k % m) (omega arith);
          lock = refl;
          slot_count = omega arith;
          item_count = refl;
          at_tail = sym (zero-mod m);
          at_head = sym (zero-mod m);
          taken = omega arith;
          window = λ j lo hi. absurd (omega arith);
          fifo = λ j lo. absurd (omega arith);
        },
        refl,
      )

pub thread_in :
    (threads : List Thread) (i : ℕ) (thread : Thread)
    → get_elem? threads i ≡ some thread
    → (i < length threads) × (get_or threads i push_returned ≡ thread)
thread_in [] i thread e = ground arith
thread_in (t ∷ ts) zero thread e = (omega arith, ground arith)
thread_in (t ∷ ts) (suc i) thread e =
    let (lt, same) = thread_in ts i thread e in (omega arith, same)

pub Step-Inv : (a b : Config) → Step a b → Inv a → Inv b × (b.queue.max_length ≡ a.queue.max_length)
Step-Inv a b (start_push _ task) v = (
  semaphores-Inv a a.queue.mutex a.queue.slots a.queue.items _ v (omega arith) (omega arith)
      (omega arith) (omega arith) (omega arith),
  refl,
)
Step-Inv a b (start_pop _) v = (
  semaphores-Inv a a.queue.mutex a.queue.slots a.queue.items _ v (omega arith) (omega arith)
      (omega arith) (omega arith) (omega arith),
  refl,
)
Step-Inv a b (execute _ i thread after queue present e) v =
    let (lt, same) = thread_in a.threads i thread present in
    subst (Outcome a i thread) e (step-Outcome a v i lt thread same)

-- Every interleaving keeps the invariant and the size of the ring.
pub Steps-Inv :
    (a b : Config) → Steps a b → Inv a → Inv b × (b.queue.max_length ≡ a.queue.max_length)
Steps-Inv a b here v = (v, refl)
Steps-Inv a b (next {b = m} before last) v =
    let (middle, same) = Steps-Inv a m before v in
    let (final, still) = Step-Inv m b last middle in (final, still ∙ same)

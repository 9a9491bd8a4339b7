-- ===== src/Cycle/Progress.antt =====
-- Configurations in which no thread can execute its next statement.
use nt_shm.Common.{
  ℕ, zero, suc, ◌+◌, ◌<◌, ◌≤◌, ◌≡◌, refl, ap, List, [], ◌∷◌, Option, none, some, Bool, true, false,
  arith, ltb, length, get_or, get_elem?,
}
use nt_shm.Common.Run.{Run, ok, read-ok}
use nt_shm.Common.Weigh.{weigh}
use nt_shm.Cycle.{
  Cycle, System, Thread, Config, Steps, push_wait_slot, push_lock, push_store, push_advance,
  push_unlock, push_post, push_returned, pop_wait_item, pop_lock, pop_load, pop_advance, pop_unlock,
  pop_post, pop_returned, sem_wait, step, task_queue_create,
}
use nt_shm.Cycle.Counts.{in_lock, holds_slot, unposted_push, holds_item, unposted_pop}
use nt_shm.Cycle.Invariant.{no_node, thread_at, Inv}
use nt_shm.Cycle.Critical.{tail-lt, head-lt}
use nt_shm.Cycle.Reach.{initial, thread_in}
use nt_shm.Cycle.Guarantees.{reached-Inv}

abbrev is_waiting : Run (Option (Cycle × Thread)) → Bool
is_waiting (ok none) = true
is_waiting _ = false

refuted :
    {P : Type 0} (run : Run (Option (Cycle × Thread))) → is_waiting run ≡ false → run ≡ ok none → P
refuted run moves e = let waits = ap is_waiting e in ground arith

weigh_zero :
    (w : Thread → ℕ) (threads : List Thread)
    → ((i : ℕ) → i < length threads → w (get_or threads i push_returned) ≡ 0)
    → weigh w threads ≡ 0
weigh_zero w [] none_weighs = refl
weigh_zero w (th ∷ threads) none_weighs = omega (
  arith,
  none_weighs 0 (omega arith),
  weigh_zero w threads (λ i lt. none_weighs (suc i) (omega arith)),
)

-- No thread of a configuration can execute its next statement.
abbrev pub Stuck : Config → Type 0
Stuck c =
    (i : ℕ) (thread : Thread) → get_elem? c.threads i ≡ some thread → step c.queue thread ≡ ok none

-- The thread has returned, or waits to push into a full queue or to pop from an empty one.
abbrev pub WaitsForOther : Config → Thread → Type 0
WaitsForOther c (push_wait_slot _) = length c.pushed ≡ c.queue.max_length + length c.popped
WaitsForOther c pop_wait_item = length c.pushed ≡ length c.popped
WaitsForOther c push_returned = Unit
WaitsForOther c (pop_returned _) = Unit
WaitsForOther c _ = ⊥

module _ (c : Config) (v : Inv c) (i : ℕ) (lt : i < length c.threads) where
  -- A thread inside the lock is never stuck.
  stuck_outside : (thread : Thread) → step c.queue thread ≡ ok none → in_lock thread ≡ 0
  unfolding step
  stuck_outside (push_store task) e =
      let inside : ltb c.queue.tail (length c.queue.nodes) ≡ true =
        ground (arith, tail-lt c v i lt) in
      refuted (step c.queue (push_store task)) (rw inside refl) e
  stuck_outside (push_advance task) e =
      refuted (step c.queue (push_advance task))
        (rw (read-ok c.queue.nodes c.queue.tail no_node (tail-lt c v i lt)) refl) e
  stuck_outside (push_unlock task) e = refuted (step c.queue (push_unlock task)) refl e
  stuck_outside pop_load e =
      refuted (step c.queue pop_load)
        (rw (read-ok c.queue.nodes c.queue.head no_node (head-lt c v i lt)) refl) e
  stuck_outside (pop_advance task) e =
      refuted (step c.queue (pop_advance task))
        (rw (read-ok c.queue.nodes c.queue.head no_node (head-lt c v i lt)) refl) e
  stuck_outside (pop_unlock task) e = refuted (step c.queue (pop_unlock task)) refl e
  stuck_outside (push_wait_slot task) e = refl
  stuck_outside (push_lock task) e = refl
  stuck_outside (push_post task) e = refl
  stuck_outside push_returned e = refl
  stuck_outside pop_wait_item e = refl
  stuck_outside pop_lock e = refl
  stuck_outside (pop_post task) e = refl
  stuck_outside (pop_returned task) e = refl

  abbrev idle_weight : Thread → ℕ
  idle_weight th = holds_slot th + unposted_push th + holds_item th + unposted_pop th

  -- Where the lock is free, a stuck thread has not begun or has returned.
  stuck_idle :
      (thread : Thread) → c.queue.mutex ≡ 1 → step c.queue thread ≡ ok none → idle_weight thread ≡ 0
  unfolding step
  stuck_idle (push_lock task) unlocked e =
      refuted (step c.queue (push_lock task)) (rw unlocked refl) e
  stuck_idle pop_lock unlocked e = refuted (step c.queue pop_lock) (rw unlocked refl) e
  stuck_idle (push_post task) unlocked e = refuted (step c.queue (push_post task)) refl e
  stuck_idle (pop_post task) unlocked e = refuted (step c.queue (pop_post task)) refl e
  stuck_idle (push_store task) unlocked e =
      let outside = stuck_outside (push_store task) e in absurd (omega arith)
  stuck_idle (push_advance task) unlocked e =
      let outside = stuck_outside (push_advance task) e in absurd (omega arith)
  stuck_idle (push_unlock task) unlocked e =
      let outside = stuck_outside (push_unlock task) e in absurd (omega arith)
  stuck_idle pop_load unlocked e = let outside = stuck_outside pop_load e in absurd (omega arith)
  stuck_idle (pop_advance task) unlocked e =
      let outside = stuck_outside (pop_advance task) e in absurd (omega arith)
  stuck_idle (pop_unlock task) unlocked e =
      let outside = stuck_outside (pop_unlock task) e in absurd (omega arith)
  stuck_idle (push_wait_slot task) unlocked e = refl
  stuck_idle push_returned unlocked e = refl
  stuck_idle pop_wait_item unlocked e = refl
  stuck_idle (pop_returned task) unlocked e = refl

present_at :
    (threads : List Thread) (i : ℕ)
    → i < length threads
    → get_elem? threads i ≡ some (get_or threads i push_returned)
present_at [] i lt = absurd (omega arith)
present_at (th ∷ threads) zero lt = refl
present_at (th ∷ threads) (suc i) lt = present_at threads i (omega arith)

sem_wait_zero :
    (value : ℕ) (rest : ℕ → Cycle × Thread) → ok (sem_wait value rest) ≡ ok none → value ≡ 0
sem_wait_zero zero rest e = refl
sem_wait_zero (suc value) rest e = refuted (ok (some (rest value))) refl e

module _ (c : Config) (v : Inv c) (stuck : Stuck c) where
  stuck_at : (i : ℕ) → i < length c.threads → step c.queue (thread_at c i) ≡ ok none
  stuck_at i lt = stuck i (thread_at c i) (present_at c.threads i lt)

  free_lock : c.queue.mutex ≡ 1
  free_lock = omega (
    arith,
    v.lock,
    weigh_zero in_lock c.threads (λ i lt. stuck_outside c v i lt (thread_at c i) (stuck_at i lt)),
  )

  idle_at : (i : ℕ) (lt : i < length c.threads) → idle_weight c v i lt (thread_at c i) ≡ 0
  idle_at i lt = stuck_idle c v i lt (thread_at c i) free_lock (stuck_at i lt)

  settled_counts :
      (c.queue.slots + length c.pushed ≡ c.queue.max_length + length c.popped)
      × (c.queue.items + length c.popped ≡ length c.pushed)
  settled_counts =
      let slots_held = weigh_zero holds_slot c.threads (λ i lt. omega (arith, idle_at i lt)) in
      let push_open = weigh_zero unposted_push c.threads (λ i lt. omega (arith, idle_at i lt)) in
      let items_held = weigh_zero holds_item c.threads (λ i lt. omega (arith, idle_at i lt)) in
      let pop_open = weigh_zero unposted_pop c.threads (λ i lt. omega (arith, idle_at i lt)) in
      (omega (arith, v.slot_count), omega (arith, v.item_count))

  busy :
      (i : ℕ) (thread : Thread) (lt : i < length c.threads)
      → step c.queue thread ≡ ok none
      → 1 ≤ idle_weight c v i lt thread
      → WaitsForOther c thread
  busy i thread lt e some_weight =
      absurd (omega (arith, stuck_idle c v i lt thread free_lock e, some_weight))

  stuck_waits :
      (i : ℕ) (thread : Thread)
      → i < length c.threads
      → step c.queue thread ≡ ok none
      → WaitsForOther c thread
  unfolding step
  stuck_waits i (push_wait_slot task) lt e =
      let none_free : c.queue.slots ≡ 0 = sem_wait_zero c.queue.slots _ e in
      omega (arith, settled_counts.0)
  stuck_waits i pop_wait_item lt e =
      let none_stored : c.queue.items ≡ 0 = sem_wait_zero c.queue.items _ e in
      omega (arith, settled_counts.1)
  stuck_waits i push_returned lt e = tt
  stuck_waits i (pop_returned task) lt e = tt
  stuck_waits i (push_lock task) lt e = busy i (push_lock task) lt e (omega arith)
  stuck_waits i (push_store task) lt e = busy i (push_store task) lt e (omega arith)
  stuck_waits i (push_advance task) lt e = busy i (push_advance task) lt e (omega arith)
  stuck_waits i (push_unlock task) lt e = busy i (push_unlock task) lt e (omega arith)
  stuck_waits i (push_post task) lt e = busy i (push_post task) lt e (omega arith)
  stuck_waits i pop_lock lt e = busy i pop_lock lt e (omega arith)
  stuck_waits i pop_load lt e = busy i pop_load lt e (omega arith)
  stuck_waits i (pop_advance task) lt e = busy i (pop_advance task) lt e (omega arith)
  stuck_waits i (pop_unlock task) lt e = busy i (pop_unlock task) lt e (omega arith)
  stuck_waits i (pop_post task) lt e = busy i (pop_post task) lt e (omega arith)

-- After any interleaving of calls on a created queue, if no thread can execute its next statement,
-- then every call has returned, or waits to push while max_length tasks are stored and not taken, or
-- waits to pop while none is.
pub no_deadlock :
    (system : System) (max_length : ℕ) (queue : Cycle) (config : Config)
    → 0 < max_length
    → length system.memory ≡ max_length
    → task_queue_create system max_length ≡ some queue
    → Steps (initial queue) config
    → Stuck config
    → (i : ℕ) (thread : Thread) → get_elem? config.threads i ≡ some thread
    → WaitsForOther config thread
no_deadlock system max_length queue config pos size created reached stuck i thread present =
    let (v, same) = reached-Inv system max_length queue config pos size created reached in
    let (lt, at) = thread_in config.threads i thread present in
    stuck_waits config v stuck i thread lt (stuck i thread present)

-- ===== src/Cycle/Fifo.antt =====
-- One statement of one thread, against the invariant.
use nt_shm.Common.{
  ℕ, zero, suc, ◌+◌, ◌<◌, ◌≡◌, refl, Option, none, some, true, arith, ltb, length, set,
}
use nt_shm.Common.Run.{Run, ok, read-ok}
use nt_shm.Cycle.{
  Task, Cycle, Thread, Config, push_wait_slot, push_lock, push_store, push_advance, push_unlock,
  push_post, push_returned, pop_wait_item, pop_lock, pop_load, pop_advance, pop_unlock, pop_post,
  pop_returned, sem_wait, step, advance,
}
use nt_shm.Cycle.Counts.{
  in_lock, holds_slot, unposted_push, holds_item, unposted_pop, moves_tail, moves_head,
}
use nt_shm.Cycle.Invariant.{no_node, thread_at, Inv, weigh-step, semaphores-Inv}
use nt_shm.Cycle.Critical.{store-Inv, tail-Inv, load-Inv, head-Inv, tail-lt, head-lt}

-- What one statement of thread i comes to: the call waits or has returned, or the invariant holds
-- after it.
abbrev pub Outcome : Config → ℕ → Thread → Run (Option (Cycle × Thread)) → Type 0
Outcome c i thread (ok none) = Unit
Outcome c i thread (ok (some (queue, after))) =
    Inv (advance c i thread queue after) × (queue.max_length ≡ c.queue.max_length)
Outcome c i thread _ = ⊥

-- A statement that changes one semaphore
module _ (c : Config) (v : Inv c) (i : ℕ) (lt : i < length c.threads) where
  quiet :
      (thread after : Thread) (mutex slots items : ℕ)
      → thread_at c i ≡ thread
      → mutex + in_lock after ≡ c.queue.mutex + in_lock thread
      → slots + holds_slot after + unposted_pop after
        ≡ c.queue.slots + holds_slot thread + unposted_pop thread
      → items + holds_item after + unposted_push after
        ≡ c.queue.items + holds_item thread + unposted_push thread
      → moves_tail after ≡ moves_tail thread
      → moves_head after ≡ moves_head thread
      → Inv (record c {
        queue = record (c.queue) { mutex = mutex; slots = slots; items = items };
        threads = set c.threads i after;
      })
  quiet thread after mutex slots items e locks free live tails heads =
      let change = λ (w : Thread → ℕ). weigh-step w c i thread after lt e in
      semaphores-Inv c mutex slots items (set c.threads i after) v
        (omega (arith, change in_lock, locks))
        (omega (arith, change holds_slot, change unposted_pop, free))
        (omega (arith, change holds_item, change unposted_push, live))
        (omega (arith, change moves_tail, tails)) (omega (arith, change moves_head, heads))

  waits_slots :
      (task : Task) (value : ℕ)
      → thread_at c i ≡ push_wait_slot task
      → c.queue.slots ≡ value
      → Outcome c i
          (push_wait_slot task)
          (ok (sem_wait value λ slots. (record (c.queue) { slots = slots }, push_lock task)))
  waits_slots task zero e same = tt
  waits_slots task (suc value) e same = (
    quiet (push_wait_slot task) (push_lock task) c.queue.mutex value c.queue.items e (omega arith)
        (omega (arith, same)) (omega arith) refl refl,
    refl,
  )

  waits_items :
      (value : ℕ)
      → thread_at c i ≡ pop_wait_item
      → c.queue.items ≡ value
      → Outcome c i pop_wait_item
          (ok (sem_wait value λ items. (record (c.queue) { items = items }, pop_lock)))
  waits_items zero e same = tt
  waits_items (suc value) e same = (
    quiet pop_wait_item pop_lock c.queue.mutex c.queue.slots value e (omega arith) (omega arith)
        (omega (arith, same)) refl refl,
    refl,
  )

  waits_push_lock :
      (task : Task) (value : ℕ)
      → thread_at c i ≡ push_lock task
      → c.queue.mutex ≡ value
      → Outcome c i
          (push_lock task)
          (ok (sem_wait value λ mutex. (record (c.queue) { mutex = mutex }, push_store task)))
  waits_push_lock task zero e same = tt
  waits_push_lock task (suc value) e same = (
    quiet (push_lock task) (push_store task) value c.queue.slots c.queue.items e
        (omega (arith, same)) (omega arith) (omega arith) refl refl,
    refl,
  )

  waits_pop_lock :
      (value : ℕ)
      → thread_at c i ≡ pop_lock
      → c.queue.mutex ≡ value
      → Outcome c i pop_lock
          (ok (sem_wait value λ mutex. (record (c.queue) { mutex = mutex }, pop_load)))
  waits_pop_lock zero e same = tt
  waits_pop_lock (suc value) e same = (
    quiet pop_lock pop_load value c.queue.slots c.queue.items e (omega (arith, same)) (omega arith)
        (omega arith) refl refl,
    refl,
  )

  -- No statement of a thread is an invalid access, and each one keeps the invariant.
  pub step-Outcome :
      (thread : Thread) → thread_at c i ≡ thread → Outcome c i thread (step c.queue thread)
  unfolding step
  step-Outcome (push_wait_slot task) e = waits_slots task c.queue.slots e refl
  step-Outcome (push_lock task) e = waits_push_lock task c.queue.mutex e refl
  step-Outcome (push_store task) e =
      let inside : ltb c.queue.tail (length c.queue.nodes) ≡ true =
        ground (arith, tail-lt c v i lt) in
      rw inside (store-Inv c v i lt task e, refl)
  step-Outcome (push_advance task) e =
      rw (read-ok c.queue.nodes c.queue.tail no_node (tail-lt c v i lt))
        (tail-Inv c v i lt task e, refl)
  step-Outcome (push_unlock task) e = (
    quiet (push_unlock task) (push_post task) (c.queue.mutex + 1) c.queue.slots c.queue.items e
        (omega arith) (omega arith) (omega arith) refl refl,
    refl,
  )
  step-Outcome (push_post task) e = (
    quiet (push_post task) push_returned c.queue.mutex c.queue.slots (c.queue.items + 1) e
        (omega arith) (omega arith) (omega arith) refl refl,
    refl,
  )
  step-Outcome pop_wait_item e = waits_items c.queue.items e refl
  step-Outcome pop_lock e = waits_pop_lock c.queue.mutex e refl
  step-Outcome pop_load e =
      rw (read-ok c.queue.nodes c.queue.head no_node (head-lt c v i lt)) (load-Inv c v i lt e, refl)
  step-Outcome (pop_advance task) e =
      rw (read-ok c.queue.nodes c.queue.head no_node (head-lt c v i lt))
        (head-Inv c v i lt task e, refl)
  step-Outcome (pop_unlock task) e = (
    quiet (pop_unlock task) (pop_post task) (c.queue.mutex + 1) c.queue.slots c.queue.items e
        (omega arith) (omega arith) (omega arith) refl refl,
    refl,
  )
  step-Outcome (pop_post task) e = (
    quiet (pop_post task) (pop_returned task) c.queue.mutex (c.queue.slots + 1) c.queue.items e
        (omega arith) (omega arith) (omega arith) refl refl,
    refl,
  )
  step-Outcome push_returned e = tt
  step-Outcome (pop_returned task) e = tt

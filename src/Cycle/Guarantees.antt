-- ===== src/Cycle/Guarantees.antt =====
-- What follows from the invariant for a queue that task_queue_create() returned.
use mathlib.Core.Path.{subst}
use nt_shm.Common.{
  ℕ, suc, ◌≤◌, ◌<◌, ◌≡◌, ◌≢◌, refl, sym, ap, ◌∙◌, List, [], ◌∷◌, ◌++◌, some, arith, length,
  length-append, get_or, get_elem?,
}
use nt_shm.Common.Run.{fault}
use nt_shm.Common.Weigh.{weigh}
use nt_shm.Cycle.{Task, Cycle, System, Thread, Config, Steps, step, task_queue_create}
use nt_shm.Cycle.Counts.{in_lock}
use nt_shm.Cycle.Invariant.{no_task, Inv}
use nt_shm.Cycle.Fifo.{Outcome, step-Outcome}
use nt_shm.Cycle.Reach.{initial, create-Inv, Steps-Inv, thread_in}

prefix :
    (xs ys : List Task)
    → length xs ≤ length ys
    → ((j : ℕ) → j < length xs → get_or xs j no_task ≡ get_or ys j no_task)
    → (rest : List Task) × (ys ≡ xs ++ rest)
prefix [] ys fits same = (ys, refl)
prefix (x ∷ xs) [] fits same = absurd (omega arith)
prefix (x ∷ xs) (y ∷ ys) fits same =
    let (rest, e) = prefix xs ys (omega arith) (λ j lt. same (suc j) (omega arith)) in
    (
      rest,
      let head : y ≡ x = sym (same 0 (omega arith)) in ap (λ t. t ∷ ys) head ∙ ap (λ l. x ∷ l) e,
    )

module _ (system : System) (max_length : ℕ) (queue : Cycle) (config : Config) (pos : 0 < max_length)
    (size : length system.memory ≡ max_length)
    (created : task_queue_create system max_length ≡ some queue)
    (reached : Steps (initial queue) config) where
  pub reached-Inv : Inv config × (config.queue.max_length ≡ max_length)
  reached-Inv =
      let (first, made) = create-Inv system max_length queue pos size created in
      let (v, same) = Steps-Inv (initial queue) config reached first in (v, same ∙ made)

  -- After any interleaving of calls on a created queue, the tasks taken are the first ones of the
  -- tasks stored, in the same order, and at most max_length tasks are stored and not taken.
  pub first_in_first_out :
      (rest : List Task) × (config.pushed ≡ config.popped ++ rest) × (length rest ≤ max_length)
  first_in_first_out =
      let (v, same) = reached-Inv in
      let (rest, e) = prefix config.popped config.pushed (omega (arith, v.item_count)) v.fifo in
      (
        rest,
        e,
        omega
            (arith, ap (length {A = Task}) e, length-append config.popped rest, v.slot_count, same),
      )

  -- After any interleaving of calls on a created queue, at most one thread is between the wait and
  -- the post of the mutex, and the next statement of no thread is an access outside the ring.
  pub steps-safe :
      (i : ℕ) (thread : Thread)
      → get_elem? config.threads i ≡ some thread
      → (weigh in_lock config.threads ≤ 1) × (step config.queue thread ≢ fault)
  steps-safe i thread present = (
    omega (arith, reached-Inv.0.lock),
    λ faulty.
        let (lt, same) = thread_in config.threads i thread present in
        subst (Outcome config i thread) faulty (step-Outcome config reached-Inv.0 i lt thread same),
  )

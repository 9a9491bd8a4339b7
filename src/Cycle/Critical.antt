-- ===== src/Cycle/Critical.antt =====
-- The statements inside the lock, against the invariant.
use native.Mathlib.Decide.{ℕ_discrete}
use native.Mathlib.Nat.{mod-lt}
use nt_shm.Common.{
  ℕ, ◌+◌, ◌-◌, ◌%◌, ◌≤◌, ◌<◌, ◌≡◌, ◌≢◌, refl, sym, ap, ◌∙◌, [], ◌∷◌, ◌++◌, arith, length,
  length-append, get_or-append_left, get_or-append_last,
}
use nt_shm.Common.Weigh.{weigh, weigh-get_or-le}
use nt_shm.Cycle.{
  Task, Node, Thread, Config, push_store, push_advance, push_unlock, pop_load, pop_advance,
  pop_unlock, push_returned, store_task, advance,
}
use nt_shm.Cycle.Ring.{suc-mod, distinct-mod}
use nt_shm.Cycle.Counts.{
  in_lock, holds_slot, unposted_push, holds_item, unposted_pop, moves_tail, moves_head,
  moves_tail-le, moves_head-le, weigh-alone,
}
use nt_shm.Cycle.Invariant.{
  no_task, node_at, thread_at, Inv, weigh-step, length-store_task, next-store_task, task-store_task,
  other-store_task,
}

module _ (c : Config) (v : Inv c) (i : ℕ) (lt : i < length c.threads) where
  abbrev m : ℕ
  m = c.queue.max_length

  pub tail_alone :
      (th : Thread)
      → thread_at c i ≡ th
      → in_lock th ≡ 1
      → weigh moves_tail c.threads ≡ moves_tail th
  tail_alone th e inside =
      weigh-alone moves_tail c.threads i th moves_tail-le lt e (omega (arith, v.lock)) inside

  pub head_alone :
      (th : Thread)
      → thread_at c i ≡ th
      → in_lock th ≡ 1
      → weigh moves_head c.threads ≡ moves_head th
  head_alone th e inside =
      weigh-alone moves_head c.threads i th moves_head-le lt e (omega (arith, v.lock)) inside

  pub tail-lt : c.queue.tail < length c.queue.nodes
  tail-lt =
      omega (arith, v.at_tail, v.width, mod-lt (length c.pushed - weigh moves_tail c.threads) v.pos)

  pub head-lt : c.queue.head < length c.queue.nodes
  head-lt =
      omega (arith, v.at_head, v.width, mod-lt (length c.popped - weigh moves_head c.threads) v.pos)

  pub store-Inv :
      (task : Task)
      → thread_at c i ≡ push_store task
      → Inv (
          advance c i
            (push_store task)
            (record (c.queue) { nodes = store_task c.queue.nodes c.queue.tail task })
            (push_advance task))
  store-Inv task e =
      let change =
        λ (w : Thread → ℕ). weigh-step w c i (push_store task) (push_advance task) lt e in
      let alone : weigh moves_tail c.threads ≡ 0 = tail_alone (push_store task) e refl in
      let num = length c.pushed in
      let longer : length (c.pushed ++ task ∷ []) ≡ num + 1 = length-append c.pushed (task ∷ []) in
      let tail : c.queue.tail ≡ num % m =
        v.at_tail ∙ ap (λ (k : ℕ). k % m) (omega (arith, alone)) in
      record {
        pos = v.pos;
        width = length-store_task task c.queue.nodes c.queue.tail ∙ v.width;
        linked = λ j jm. next-store_task task c.queue.nodes c.queue.tail j ∙ v.linked j jm;
        lock = omega (arith, change in_lock, v.lock);
        slot_count = omega (arith, change holds_slot, change unposted_pop, longer, v.slot_count);
        item_count = omega (arith, change holds_item, change unposted_push, longer, v.item_count);
        at_tail = tail ∙ ap (λ (k : ℕ). k % m) (omega (arith, longer, change moves_tail, alone));
        at_head =
            v.at_head
            ∙ ap (λ (k : ℕ). (length c.popped - k) % m) (omega (arith, change moves_head));
        taken = omega (arith, change moves_head, v.taken);
        window = λ j lo hi. elim (ℕ_discrete j num) [
          | yes newest ↦
              rw (newest, sym tail)
                (task-store_task task c.queue.nodes c.queue.tail tail-lt
                  ∙ sym (get_or-append_last c.pushed task no_task num refl))
          | no older ↦
              let inside : j < num = omega (arith, longer) in
              let apart : j % m ≢ c.queue.tail = (λ same.
                distinct-mod m j num inside (omega (arith, v.slot_count, change holds_slot))
                  (same ∙ tail)) in
              ap (λ (n : Node). n.task)
                (other-store_task task c.queue.nodes c.queue.tail (j % m) apart)
              ∙ v.window j lo inside
              ∙ sym (get_or-append_left c.pushed (task ∷ []) j no_task inside)
        ];
        fifo = λ j lo.
            v.fifo j lo
            ∙ sym (get_or-append_left c.pushed (task ∷ []) j no_task (omega (arith, v.item_count)));
      }

  pub tail-Inv :
      (task : Task)
      → thread_at c i ≡ push_advance task
      → Inv (
          advance c i
            (push_advance task)
            (record (c.queue) { tail = (node_at c.queue c.queue.tail).next })
            (push_unlock task))
  tail-Inv task e =
      let change =
        λ (w : Thread → ℕ). weigh-step w c i (push_advance task) (push_unlock task) lt e in
      let alone : weigh moves_tail c.threads ≡ 1 = tail_alone (push_advance task) e refl in
      let num = length c.pushed in
      let some_pushed : 1 ≤ num = omega (
        arith,
        v.item_count,
        weigh-get_or-le unposted_push c.threads i push_returned lt,
        ap unposted_push e,
      ) in
      let tail : c.queue.tail ≡ (num - 1) % m =
        v.at_tail ∙ ap (λ (k : ℕ). k % m) (omega (arith, alone)) in
      record {
        pos = v.pos;
        width = v.width;
        linked = v.linked;
        lock = omega (arith, change in_lock, v.lock);
        slot_count = omega (arith, change holds_slot, change unposted_pop, v.slot_count);
        item_count = omega (arith, change holds_item, change unposted_push, v.item_count);
        at_tail =
            v.linked c.queue.tail (omega (arith, tail-lt, v.width))
            ∙ ap (λ (k : ℕ). (k + 1) % m) tail
            ∙ suc-mod m (num - 1)
            ∙ ap (λ (k : ℕ). k % m) (omega (arith, alone, change moves_tail));
        at_head =
            v.at_head
            ∙ ap (λ (k : ℕ). (length c.popped - k) % m) (omega (arith, change moves_head));
        taken = omega (arith, change moves_head, v.taken);
        window = v.window;
        fifo = v.fifo;
      }

  pub load-Inv :
      thread_at c i ≡ pop_load
      → Inv (advance c i pop_load (c.queue) (pop_advance ((node_at c.queue c.queue.head).task)))
  load-Inv e =
      let task = (node_at c.queue c.queue.head).task in
      let change = λ (w : Thread → ℕ). weigh-step w c i pop_load (pop_advance task) lt e in
      let alone : weigh moves_head c.threads ≡ 0 = head_alone pop_load e refl in
      let num = length c.popped in
      let longer : length (c.popped ++ task ∷ []) ≡ num + 1 = length-append c.popped (task ∷ []) in
      let head : c.queue.head ≡ num % m =
        v.at_head ∙ ap (λ (k : ℕ). k % m) (omega (arith, alone)) in
      record {
        pos = v.pos;
        width = v.width;
        linked = v.linked;
        lock = omega (arith, change in_lock, v.lock);
        slot_count = omega (arith, change holds_slot, change unposted_pop, longer, v.slot_count);
        item_count = omega (arith, change holds_item, change unposted_push, longer, v.item_count);
        at_tail =
            v.at_tail
            ∙ ap (λ (k : ℕ). (length c.pushed - k) % m) (omega (arith, change moves_tail));
        at_head = head ∙ ap (λ (k : ℕ). k % m) (omega (arith, longer, change moves_head, alone));
        taken = omega (arith, change moves_head, longer, v.taken);
        window = λ j lo hi. v.window j (omega (arith, longer)) hi;
        fifo = λ j lo. elim (ℕ_discrete j num) [
          | yes newest ↦ rw newest (
              get_or-append_last c.popped task no_task num refl
              ∙ ap (λ (k : ℕ). (node_at c.queue k).task) head
              ∙ v.window num (omega arith) (omega (arith, v.item_count, change holds_item)))
          | no older ↦
              let inside : j < num = omega (arith, longer) in
              get_or-append_left c.popped (task ∷ []) j no_task inside ∙ v.fifo j inside
        ];
      }

  pub head-Inv :
      (task : Task)
      → thread_at c i ≡ pop_advance task
      → Inv (
          advance c i
            (pop_advance task)
            (record (c.queue) { head = (node_at c.queue c.queue.head).next })
            (pop_unlock task))
  head-Inv task e =
      let change = λ (w : Thread → ℕ). weigh-step w c i (pop_advance task) (pop_unlock task) lt e in
      let alone : weigh moves_head c.threads ≡ 1 = head_alone (pop_advance task) e refl in
      let num = length c.popped in
      let some_popped : 1 ≤ num = omega (arith, alone, v.taken) in
      let head : c.queue.head ≡ (num - 1) % m =
        v.at_head ∙ ap (λ (k : ℕ). k % m) (omega (arith, alone)) in
      record {
        pos = v.pos;
        width = v.width;
        linked = v.linked;
        lock = omega (arith, change in_lock, v.lock);
        slot_count = omega (arith, change holds_slot, change unposted_pop, v.slot_count);
        item_count = omega (arith, change holds_item, change unposted_push, v.item_count);
        at_tail =
            v.at_tail
            ∙ ap (λ (k : ℕ). (length c.pushed - k) % m) (omega (arith, change moves_tail));
        at_head =
            v.linked c.queue.head (omega (arith, head-lt, v.width))
            ∙ ap (λ (k : ℕ). (k + 1) % m) head
            ∙ suc-mod m (num - 1)
            ∙ ap (λ (k : ℕ). k % m) (omega (arith, alone, change moves_head));
        taken = omega (arith, change moves_head, v.taken);
        window = v.window;
        fifo = v.fifo;
      }

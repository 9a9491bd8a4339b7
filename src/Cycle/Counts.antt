-- ===== src/Cycle/Counts.antt =====
-- How many threads stand where: weights of the list of threads.
use nt_shm.Common.{ℕ, ◌≤◌, ◌<◌, ◌≡◌, ap, List, [], ◌∷◌, arith, length, get_or, set}
use nt_shm.Common.Weigh.{weigh, weigh-set}
use nt_shm.Cycle.{
  Thread, push_wait_slot, push_lock, push_store, push_advance, push_unlock, push_post,
  push_returned, pop_wait_item, pop_lock, pop_load, pop_advance, pop_unlock, pop_post, pop_returned,
}

-- Between the wait and the post of the mutex
abbrev pub in_lock : Thread → ℕ
in_lock (push_store _) = 1
in_lock (push_advance _) = 1
in_lock (push_unlock _) = 1
in_lock pop_load = 1
in_lock (pop_advance _) = 1
in_lock (pop_unlock _) = 1
in_lock _ = 0

-- With a free node that is not used yet
abbrev pub holds_slot : Thread → ℕ
holds_slot (push_lock _) = 1
holds_slot (push_store _) = 1
holds_slot _ = 0

-- With a stored task that is not announced yet
abbrev pub unposted_push : Thread → ℕ
unposted_push (push_advance _) = 1
unposted_push (push_unlock _) = 1
unposted_push (push_post _) = 1
unposted_push _ = 0

-- With an announced task that is not taken yet
abbrev pub holds_item : Thread → ℕ
holds_item pop_lock = 1
holds_item pop_load = 1
holds_item _ = 0

-- With a node that is free again and not announced yet
abbrev pub unposted_pop : Thread → ℕ
unposted_pop (pop_advance _) = 1
unposted_pop (pop_unlock _) = 1
unposted_pop (pop_post _) = 1
unposted_pop _ = 0

-- Before the move of the tail
abbrev pub moves_tail : Thread → ℕ
moves_tail (push_advance _) = 1
moves_tail _ = 0

-- Before the move of the head
abbrev pub moves_head : Thread → ℕ
moves_head (pop_advance _) = 1
moves_head _ = 0

pub moves_tail-le : (th : Thread) → moves_tail th ≤ in_lock th
moves_tail-le (push_wait_slot t) = omega arith
moves_tail-le (push_lock t) = omega arith
moves_tail-le (push_store t) = omega arith
moves_tail-le (push_advance t) = omega arith
moves_tail-le (push_unlock t) = omega arith
moves_tail-le (push_post t) = omega arith
moves_tail-le push_returned = omega arith
moves_tail-le pop_wait_item = omega arith
moves_tail-le pop_lock = omega arith
moves_tail-le pop_load = omega arith
moves_tail-le (pop_advance t) = omega arith
moves_tail-le (pop_unlock t) = omega arith
moves_tail-le (pop_post t) = omega arith
moves_tail-le (pop_returned t) = omega arith

pub moves_head-le : (th : Thread) → moves_head th ≤ in_lock th
moves_head-le (push_wait_slot t) = omega arith
moves_head-le (push_lock t) = omega arith
moves_head-le (push_store t) = omega arith
moves_head-le (push_advance t) = omega arith
moves_head-le (push_unlock t) = omega arith
moves_head-le (push_post t) = omega arith
moves_head-le push_returned = omega arith
moves_head-le pop_wait_item = omega arith
moves_head-le pop_lock = omega arith
moves_head-le pop_load = omega arith
moves_head-le (pop_advance t) = omega arith
moves_head-le (pop_unlock t) = omega arith
moves_head-le (pop_post t) = omega arith
moves_head-le (pop_returned t) = omega arith

weigh-le :
    (w v : Thread → ℕ) (ths : List Thread)
    → ((th : Thread) → w th ≤ v th)
    → weigh w ths ≤ weigh v ths
weigh-le w v [] le = omega arith
weigh-le w v (th ∷ ths) le = omega (arith, le th, weigh-le w v ths le)

-- A thread inside the lock is alone there.
pub weigh-alone :
    (w : Thread → ℕ) (ths : List Thread) (i : ℕ) (th : Thread)
    → ((t : Thread) → w t ≤ in_lock t)
    → i < length ths
    → get_or ths i push_returned ≡ th
    → weigh in_lock ths ≤ 1
    → in_lock th ≡ 1
    → weigh w ths ≡ w th
weigh-alone w ths i th le lt e one inside =
    let left = set ths i push_returned in
    omega (
      arith,
      weigh-le w in_lock left le,
      weigh-set in_lock ths i push_returned push_returned lt,
      weigh-set w ths i push_returned push_returned lt,
      ap in_lock e,
      ap w e,
      le push_returned,
    )

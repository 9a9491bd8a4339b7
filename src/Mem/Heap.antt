-- ===== src/Mem/Heap.antt =====
-- The invariant of the allocator: the chunks fill the segment, and the free ones are listed in the
-- buckets of their sizes.
use mathlib.Core.Path.{subst}
use native.Mathlib.Decide.{ℕ_discrete}
use nt_shm.Common.{
  ℕ, ◌+◌, ◌*◌, ◌≤◌, ◌<◌, ◌≡◌, ◌≢◌, inl, inr, sym, ap, List, false, arith, ◌==◌, ==_self,
  if◌then◌else◌,
}
use nt_shm.Common.Weigh.{weigh, weigh_mono, weigh-sum}
use nt_shm.Mem.{Memory, mem_flg_used, mem_bucket_count, mem_bucket_by_size, bucket_cell}
use nt_shm.Mem.Links.{Linked, OffLinks, Far, Same, Linked-Same}
use nt_shm.Mem.Relink.{Relinked}
use nt_shm.Mem.Tiles.{
  State, used, free, loose, Chunk, Tiles, starts, IsStart, count, All-of_count, start-in,
  starts-Far, starts-le, tag_words, Tiles-Same,
}

abbrev pub is_free : State → ℕ
is_free used = 0
is_free free = 1
is_free loose = 0

-- 1 for a free chunk at x whose size belongs in bucket i, else 0
abbrev pub listed : ℕ → ℕ → Chunk → ℕ
listed i x c =
    if c.addr == x then (if mem_bucket_by_size c.size == i then is_free c.state else 0) else 0

-- The lists of the buckets after bucket i has been changed
abbrev pub put_list : (ℕ → List ℕ) → ℕ → List ℕ → ℕ → List ℕ
put_list bs i xs j = if j == i then xs else bs j

pub record Heap (mem : Memory) (buckets lo hi : ℕ) (cs : List Chunk) (bs : ℕ → List ℕ)
    : Type 0 where
  pub room : buckets + 8 * mem_bucket_count ≤ lo
  pub top : hi < mem_flg_used
  pub tiles : Tiles mem lo hi cs
  pub lists : (i : ℕ) → i < mem_bucket_count → Linked mem (bucket_cell buckets i) 0 (bs i)
  pub members : (i x : ℕ) → i < mem_bucket_count → count x (bs i) ≡ weigh (listed i x) cs

is_free-le : (s : State) → is_free s ≤ 1
is_free-le used = omega arith
is_free-le free = omega arith
is_free-le loose = omega arith

pub listed-starts : (i x : ℕ) (cs : List Chunk) → weigh (listed i x) cs ≤ weigh (starts x) cs
listed-starts i x cs =
    weigh_mono (listed i x) (starts x) cs (λ c. let one = is_free-le c.state in ground arith)

pub listed-once :
    (i j x : ℕ) (cs : List Chunk)
    → i ≢ j
    → weigh (listed i x) cs + weigh (listed j x) cs ≤ weigh (starts x) cs
listed-once i j x cs ne = omega (
  arith,
  weigh-sum (listed i x) (listed j x) cs,
  weigh_mono (λ c. listed i x c + listed j x c) (starts x) cs
      (λ c. let one = is_free-le c.state in ground arith),
)

-- The link fields of y are words far from those of x.
clear_of : (y k x : ℕ) → 8 ≤ k → k ≤ 16 → Far y x → (y + k ≢ x + 8) × (y + k ≢ x + 16)
clear_of y k x lo_k hi_k (inl far) = ((λ e. omega arith), (λ e. omega arith))
clear_of y k x lo_k hi_k (inr far) = ((λ e. omega arith), (λ e. omega arith))

-- The address is no link field of the chunks that start at `touched`.
pub off_links :
    (p : ℕ) (touched : List ℕ)
    → ((x : ℕ) → 1 ≤ count x touched → x < p → p < x + 24 → ⊥)
    → OffLinks p touched
off_links p touched clear = All-of_count _ touched (λ x there. (
  (λ e. clear x there (omega arith) (omega arith)),
  (λ e. clear x there (omega arith) (omega arith)),
))

module _ (mem : Memory) (buckets lo hi : ℕ) (cs : List Chunk) (bs : ℕ → List ℕ)
    (v : Heap mem buckets lo hi cs bs) where
  pub member-IsStart : (i x : ℕ) → i < mem_bucket_count → 1 ≤ count x (bs i) → IsStart cs x
  member-IsStart i x lt there = omega (arith, v.members i x lt, listed-starts i x cs)

  pub member-once :
      (i j x : ℕ)
      → i < mem_bucket_count
      → j < mem_bucket_count
      → i ≢ j
      → 1 ≤ count x (bs i)
      → count x (bs j) ≡ 0
  member-once i j x lti ltj ne there = omega (
    arith,
    v.members i x lti,
    v.members j x ltj,
    listed-once i j x cs ne,
    starts-le mem hi lo x cs v.tiles,
  )

  -- A change of the list of bucket i at the link fields of chunks that are in no other list
  module _ (i : ℕ) (xs touched : List ℕ) (after : Memory) (lti : i < mem_bucket_count)
      (r : Relinked mem after (bucket_cell buckets i) xs touched)
      (own : (x : ℕ) → 1 ≤ count x touched → IsStart cs x)
      (alone : (x j : ℕ)
        → 1 ≤ count x touched
        → j < mem_bucket_count
        → j ≢ i
        → count x (bs j) ≡ 0) where
    -- Words of the segment off the touched link fields are kept.
    pub relist-Same :
        (p : ℕ) → lo ≤ p → ((x : ℕ) → IsStart cs x → x < p → p < x + 24 → ⊥) → Same mem after p
    relist-Same p inside clear =
        r.same p (λ e. omega (arith, v.room))
          (off_links p touched (λ x there lo_p close. clear x (own x there) lo_p close))

    pub relist-Tiles : Tiles after lo hi cs
    relist-Tiles =
        Tiles-Same mem after lo hi cs
          (tag_words mem hi lo cs (λ p. Same mem after p) v.tiles
            (λ p inside below clear. relist-Same p inside clear))
          v.tiles

    other_list :
        (j : ℕ) → j < mem_bucket_count → j ≢ i → Linked after (bucket_cell buckets j) 0 (bs j)
    other_list j ltj ne =
        Linked-Same mem after (bucket_cell buckets j) 0 (bs j)
          (r.same (bucket_cell buckets j) (λ e. omega arith)
            (off_links (bucket_cell buckets j) touched (λ x there lo_p close.
              let (inside, _) = start-in mem hi lo x cs v.tiles (own x there) in
              omega (arith, v.room))))
          (All-of_count _ (bs j) (λ y there. (
            field y 8 there (omega arith) (omega arith),
            field y 16 there (omega arith) (omega arith),
          )))
          (v.lists j ltj)
      where
        field : (y k : ℕ) → 1 ≤ count y (bs j) → 8 ≤ k → k ≤ 16 → Same mem after (y + k)
        field y k there lo_k hi_k =
            let here : IsStart cs y = member-IsStart j y ltj there in
            let (inside, _) = start-in mem hi lo y cs v.tiles here in
            r.same (y + k) (λ e. omega (arith, v.room))
              (All-of_count _ touched (λ x tx.
                let apart : y ≢ x =
                  (λ e. omega (arith, ap (λ (n : ℕ). count n (bs j)) e, alone x j tx ltj ne)) in
                clear_of y k x lo_k hi_k
                  (starts-Far mem hi lo y x cs v.tiles here (own x tx) apart)))

    pub relist-lists :
        (j : ℕ) → j < mem_bucket_count → Linked after (bucket_cell buckets j) 0 (put_list bs i xs j)
    relist-lists j ltj = elim (ℕ_discrete j i) [
      | yes same ↦
          subst (λ (k : ℕ). Linked after (bucket_cell buckets k) 0 (put_list bs i xs k)) (sym same)
            (rw (==_self i) r.list)
      | no other ↦ let test : (j == i) ≡ false = ground arith in rw test (other_list j ltj other)
    ]

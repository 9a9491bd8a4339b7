-- ===== src/Mem/Tiles.antt =====
-- The segment as a sequence of chunks, each with its size fields at both ends.
use native.Mathlib.Decide.{ℕ_discrete}
use nt_shm.Common.{
  ℕ, ◌+◌, ◌%◌, ◌≤◌, ◌<◌, ◌≡◌, ◌≢◌, inl, inr, refl, ◌∙◌, List, [], ◌∷◌, ◌++◌, arith, ◌==◌,
  if◌then◌else◌,
}
use nt_shm.Common.Weigh.{weigh, All}
use nt_shm.Mem.{Memory, mem_flg_used}
use nt_shm.Mem.Links.{Far, Same}

-- Of a loose chunk, which an operation is about to change, the fields may hold anything.
pub data State : Type 0 where
  used free loose : State

pub record Chunk : Type 0 where
  pub addr : ℕ
  pub size : ℕ
  pub state : State

abbrev pub chunk : ℕ → ℕ → State → Chunk
chunk a n s = record { addr = a; size = n; state = s }

abbrev pub Tags : Memory → ℕ → ℕ → State → Type 0
Tags mem a n used = (mem a ≡ mem_flg_used + n) × (mem (a + 8 + n) ≡ mem_flg_used + n)
Tags mem a n free = (mem a ≡ n) × (mem (a + 8 + n) ≡ n)
Tags mem a n loose = Unit

-- The chunks fill the addresses from a to hi, one behind the other.
abbrev pub Tiles : Memory → ℕ → ℕ → List Chunk → Type 0
Tiles mem a hi [] = a ≡ hi
Tiles mem a hi (c ∷ cs) =
    (c.addr ≡ a)
    × (24 ≤ c.size)
    × (c.size % 8 ≡ 0)
    × Tags mem c.addr c.size c.state
    × Tiles mem (a + 16 + c.size) hi cs

-- 1 for the chunk at x, else 0
abbrev pub starts : ℕ → Chunk → ℕ
starts x c = if c.addr == x then 1 else 0

abbrev pub IsStart : List Chunk → ℕ → Type 0
IsStart cs x = 1 ≤ weigh (starts x) cs

-- 1 for the number x, else 0
abbrev pub is : ℕ → ℕ → ℕ
is x y = if y == x then 1 else 0

abbrev pub count : ℕ → List ℕ → ℕ
count x = weigh (is x)

pub All-of_count {ℓ} : (P : ℕ → Type ℓ) (xs : List ℕ) → ((x : ℕ) → 1 ≤ count x xs → P x) → All P xs
All-of_count P [] h = tt
All-of_count P (x ∷ xs) h = (h x (ground arith), All-of_count P xs (λ y there. h y (omega arith)))

module _ (mem : Memory) (hi : ℕ) where
  pub Tiles-le : (b : ℕ) (ds : List Chunk) → Tiles mem b hi ds → b ≤ hi
  Tiles-le b [] t = omega arith
  Tiles-le b (d ∷ ds) (e, big, whole, tags, t) = omega (arith, Tiles-le (b + 16 + d.size) ds t)

  pub start-in :
      (a x : ℕ) (cs : List Chunk) → Tiles mem a hi cs → IsStart cs x → (a ≤ x) × (x + 40 ≤ hi)
  start-in a x [] t here = absurd (omega arith)
  start-in a x (c ∷ cs) (e, big, whole, tags, t) here = elim (ℕ_discrete c.addr x) [
    | yes same ↦ (omega arith, omega (arith, Tiles-le (a + 16 + c.size) cs t))
    | no other ↦
        let (lo, up) = start-in (a + 16 + c.size) x cs t (ground arith) in (omega arith, up)
  ]

  pub starts-Far :
      (a x y : ℕ) (cs : List Chunk)
      → Tiles mem a hi cs
      → IsStart cs x
      → IsStart cs y
      → x ≢ y
      → Far x y
  starts-Far a x y [] t hx hy ne = absurd (omega arith)
  starts-Far a x y (c ∷ cs) (e, big, whole, tags, t) hx hy ne = elim (ℕ_discrete c.addr x) [
    | yes is_x ↦
        let (lo, up) = start-in (a + 16 + c.size) y cs t (ground arith) in inl (omega arith)
    | no not_x ↦ elim (ℕ_discrete c.addr y) [
      | yes is_y ↦
          let (lo, up) = start-in (a + 16 + c.size) x cs t (ground arith) in inr (omega arith)
      | no not_y ↦ starts-Far (a + 16 + c.size) x y cs t (ground arith) (ground arith) ne
    ]
  ]

  pub starts-le : (a x : ℕ) (cs : List Chunk) → Tiles mem a hi cs → weigh (starts x) cs ≤ 1
  starts-le a x [] t = omega arith
  starts-le a x (c ∷ cs) (e, big, whole, tags, t) = elim (ℕ_discrete (weigh (starts x) cs) 0) [
    | yes none_later ↦ ground arith
    | no later ↦
        let (lo, up) = start-in (a + 16 + c.size) x cs t (omega arith) in
        let single = starts-le (a + 16 + c.size) x cs t in ground arith
  ]

-- A property of the words of the segment that are no link fields holds of the size fields.
pub tag_words {ℓ} :
    (mem : Memory) (hi a : ℕ) (cs : List Chunk) (Q : ℕ → Type ℓ)
    → Tiles mem a hi cs
    → ((p : ℕ) → a ≤ p → p < hi → ((x : ℕ) → IsStart cs x → x < p → p < x + 24 → ⊥) → Q p)
    → All (λ c. Q c.addr × Q (c.addr + 8 + c.size)) cs
tag_words mem hi a [] Q t h = tt
tag_words mem hi a (c ∷ cs) Q (e, big, whole, tags, t) h =
    let b : ℕ = a + 16 + c.size in
    let up : b ≤ hi = Tiles-le mem hi b cs t in
    (
      (
        h c.addr (omega arith) (omega arith)
            (λ x here lo _. head_clear c.addr x here lo (omega arith) (λ q. omega arith)),
        h (c.addr + 8 + c.size) (omega arith) (omega arith) (λ x here lo close.
            elim (ℕ_discrete c.addr x) [
              | yes same ↦ omega arith
              | no other ↦ head_clear (c.addr + 8 + c.size) x here lo (omega arith) other
            ]),
      ),
      tag_words mem hi b cs Q t (λ p lo p_hi clear. h p (omega arith) p_hi (λ x here below close.
          elim (ℕ_discrete c.addr x) [
            | yes same ↦ omega arith
            | no other ↦ clear x (ground arith) below close
          ])),
    )
  where
    head_clear : (p x : ℕ) → IsStart (c ∷ cs) x → x < p → p < a + 16 + c.size → (c.addr ≡ x → ⊥) → ⊥
    head_clear p x here lo lt other =
        let (inside, _) = start-in mem hi (a + 16 + c.size) x cs t (ground arith) in omega arith

pub Tiles-Same :
    (mem after : Memory) (a hi : ℕ) (cs : List Chunk)
    → All (λ c. Same mem after c.addr × Same mem after (c.addr + 8 + c.size)) cs
    → Tiles mem a hi cs
    → Tiles after a hi cs
Tiles-Same mem after a hi [] same t = t
Tiles-Same mem after a hi (c ∷ cs) ((left, right), same) (e, big, whole, tags, t) =
    (e, big, whole, moved c.state tags, Tiles-Same mem after (a + 16 + c.size) hi cs same t)
  where
    moved : (s : State) → Tags mem c.addr c.size s → Tags after c.addr c.size s
    moved used (l, r) = (left ∙ l, right ∙ r)
    moved free (l, r) = (left ∙ l, right ∙ r)
    moved loose tags = tt

-- The address behind the chunks
abbrev pub end_of : ℕ → List Chunk → ℕ
end_of a [] = a
end_of a (c ∷ cs) = end_of (a + 16 + c.size) cs

module _ (mem : Memory) (hi : ℕ) where
  pub Tiles-split :
      (a : ℕ) (l r : List Chunk)
      → Tiles mem a hi (l ++ r)
      → Tiles mem a (end_of a l) l × Tiles mem (end_of a l) hi r
  Tiles-split a [] r t = (refl, t)
  Tiles-split a (c ∷ l) r (e, big, whole, tags, t) =
      let (front, back) = Tiles-split (a + 16 + c.size) l r t in
      ((e, big, whole, tags, front), back)

  pub Tiles-join :
      (a : ℕ) (l r : List Chunk)
      → Tiles mem a (end_of a l) l
      → Tiles mem (end_of a l) hi r
      → Tiles mem a hi (l ++ r)
  Tiles-join a [] r front back = back
  Tiles-join a (c ∷ l) r (e, big, whole, tags, front) back =
      (e, big, whole, tags, Tiles-join (a + 16 + c.size) l r front back)

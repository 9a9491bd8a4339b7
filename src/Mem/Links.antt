-- ===== src/Mem/Links.antt =====
-- A bucket's list of free chunks in memory, and what a link and an unlink make of it.
use nt_shm.Common.{
  ℕ, ◌+◌, ◌≤◌, ◌<◌, ◌≡◌, ◌≢◌, ◌⊎◌, inl, inr, ◌∙◌, List, [], ◌∷◌, ◌++◌, false, arith, ◌==◌,
  if◌then◌else◌,
}
use nt_shm.Common.Weigh.{All}
use nt_shm.Mem.{Memory, store, mem_ptr_to_prev_field, mem_ptr_to_next_field}

-- From the pointer at `cell`, the next fields lead through the chunks `xs` to NULL, and the prev
-- fields lead back to `prev`.
abbrev pub Linked : Memory → ℕ → ℕ → List ℕ → Type 0
Linked mem cell prev [] = mem cell ≡ 0
Linked mem cell prev (x ∷ xs) =
    (mem cell ≡ x) × (0 < x) × (mem (x + 8) ≡ prev) × Linked mem (x + 16) x xs

-- The address is none of the link fields of the chunks.
abbrev pub OffLinks : ℕ → List ℕ → Type 0
OffLinks p = All (λ x. (p ≢ x + 8) × (p ≢ x + 16))

-- The link fields of two chunks are different words.
abbrev pub Far : ℕ → ℕ → Type 0
Far x y = (x + 24 ≤ y) ⊎ (y + 24 ≤ x)

-- All link fields, and the first pointer, are different words.
abbrev pub Spread : ℕ → List ℕ → Type 0
Spread cell [] = Unit
Spread cell (x ∷ xs) = OffLinks cell (x ∷ xs) × All (Far x) xs × Spread (x + 16) xs

-- The memories agree at the address.
abbrev pub Same : Memory → Memory → ℕ → Type 0
Same mem after p = after p ≡ mem p

pub Linked-Same :
    (mem after : Memory) (cell prev : ℕ) (xs : List ℕ)
    → Same mem after cell
    → All (λ x. Same mem after (x + 8) × Same mem after (x + 16)) xs
    → Linked mem cell prev xs
    → Linked after cell prev xs
Linked-Same mem after cell prev [] at_cell at_links l = at_cell ∙ l
Linked-Same mem after cell prev (x ∷ xs) at_cell at_links (e, pos, back, l) = (
  at_cell ∙ e,
  pos,
  at_links.0.0 ∙ back,
  Linked-Same mem after (x + 16) x xs at_links.0.1 at_links.1 l,
)

-- The pointer that leads to what stands behind `ys`, and the last chunk of `ys`.
abbrev pub end_cell : ℕ → List ℕ → ℕ
end_cell cell [] = cell
end_cell cell (y ∷ ys) = end_cell (y + 16) ys

abbrev pub end_prev : ℕ → List ℕ → ℕ
end_prev prev [] = prev
end_prev prev (y ∷ ys) = end_prev y ys

-- The prev field of the chunk behind `ys` tells which pointer leads to it.
pub prev-cell :
    (mem : Memory) (cell prev first d : ℕ) (ys zs : List ℕ)
    → Linked mem cell prev (ys ++ d ∷ zs)
    → mem_ptr_to_next_field prev first ≡ cell
    → mem_ptr_to_next_field (mem (d + 8)) first ≡ end_cell cell ys
prev-cell mem cell prev first d [] zs (e, pos, back, l) link = rw back link
prev-cell mem cell prev first d (y ∷ ys) zs (e, pos, back, l) link =
    prev-cell mem (y + 16) y first d ys zs l (ground arith)

pub behind :
    (mem : Memory) (cell prev d : ℕ) (ys zs : List ℕ)
    → Linked mem cell prev (ys ++ d ∷ zs)
    → (mem (d + 8) ≡ end_prev prev ys) × Linked mem (d + 16) d zs
behind mem cell prev d [] zs (e, pos, back, l) = (back, l)
behind mem cell prev d (y ∷ ys) zs (e, pos, back, l) = behind mem (y + 16) y d ys zs l

-- The memory after the removal of the chunk d behind ys.
pub record Bypassed (mem after : Memory) (cell prev : ℕ) (ys zs : List ℕ) : Type 0 where
  pub forth : Linked after (end_cell cell ys) (end_prev prev ys) zs
  pub rest : (p : ℕ) → p ≢ end_cell cell ys → OffLinks p zs → Same mem after p

pub OffLinks-back : (p : ℕ) (ys zs : List ℕ) → OffLinks p (ys ++ zs) → OffLinks p zs
OffLinks-back p [] zs off = off
OffLinks-back p (y ∷ ys) zs off = OffLinks-back p ys zs off.1

pub end_cell-off :
    (p cell : ℕ) (ys zs : List ℕ) → p ≢ cell → OffLinks p (ys ++ zs) → p ≢ end_cell cell ys
end_cell-off p cell [] zs ne off = ne
end_cell-off p cell (y ∷ ys) zs ne off = end_cell-off p (y + 16) ys zs off.0.1 off.1

-- The back field of x is none of the link fields of chunks far from it.
pub Far-off : (x : ℕ) (ys : List ℕ) → All (Far x) ys → OffLinks (x + 8) ys × OffLinks (x + 16) ys
Far-off x [] far = (tt, tt)
Far-off x (y ∷ ys) (here, far) =
    let (eight, sixteen) = Far-off x ys far in
    elim here [
      | inl lo ↦ (
        (((λ e. omega arith), (λ e. omega arith)), eight),
        (((λ e. omega arith), (λ e. omega arith)), sixteen),
      )
      | inr hi ↦ (
        (((λ e. omega arith), (λ e. omega arith)), eight),
        (((λ e. omega arith), (λ e. omega arith)), sixteen),
      )
    ]

pub bypass-Linked :
    (mem after : Memory) (cell prev d : ℕ) (ys zs : List ℕ)
    → Spread cell (ys ++ d ∷ zs)
    → Linked mem cell prev (ys ++ d ∷ zs)
    → Bypassed mem after cell prev ys zs
    → Linked after cell prev (ys ++ zs)
bypass-Linked mem after cell prev d [] zs apart l b = b.forth
bypass-Linked mem after cell prev d (y ∷ ys) zs (off, far, apart) (e, pos, back, l) b =
    let (off8, off16) = Far-off y (ys ++ d ∷ zs) far in
    (
      b.rest cell (end_cell-off cell (y + 16) ys (d ∷ zs) off.0.1 off.1)
            (OffLinks-back cell ys (d ∷ zs) off.1).1
          ∙ e,
      pos,
      b.rest (y + 8) (end_cell-off (y + 8) (y + 16) ys (d ∷ zs) (λ q. omega arith) off8)
            (OffLinks-back (y + 8) ys (d ∷ zs) off8).1
          ∙ back,
      bypass-Linked mem after (y + 16) y d ys zs apart l
          (record { forth = b.forth; rest = b.rest }),
    )

Spread-behind :
    (cell d : ℕ) (ys zs : List ℕ)
    → Spread cell (ys ++ d ∷ zs)
    → OffLinks (end_cell cell ys) (d ∷ zs) × All (Far d) zs × Spread (d + 16) zs
Spread-behind cell d [] zs apart = apart
Spread-behind cell d (y ∷ ys) zs apart = Spread-behind (y + 16) d ys zs apart.2

-- A store at a word off the links of the chunks.
pub store-links :
    (mem : Memory) (p v : ℕ) (xs : List ℕ)
    → OffLinks p xs
    → All (λ x. Same mem (store mem p v) (x + 8) × Same mem (store mem p v) (x + 16)) xs
store-links mem p v [] off = tt
store-links mem p v (x ∷ xs) off = ((ground arith, ground arith), store-links mem p v xs off.1)

pub store-Linked :
    (mem : Memory) (p v cell prev : ℕ) (xs : List ℕ)
    → p ≢ cell
    → OffLinks p xs
    → Linked mem cell prev xs
    → Linked (store mem p v) cell prev xs
store-Linked mem p v cell prev xs ne off l =
    Linked-Same mem (store mem p v) cell prev xs (ground arith) (store-links mem p v xs off) l

-- The two stores of an unlink
abbrev pub bypass : Memory → ℕ → ℕ → ℕ → Memory
bypass mem cell next prev =
    let m1 : Memory = store mem cell next in
    if mem_ptr_to_prev_field next == 0 then m1 else store m1 (mem_ptr_to_prev_field next) prev

pub bypass-Bypassed :
    (mem : Memory) (cell prev d : ℕ) (ys zs : List ℕ)
    → Spread cell (ys ++ d ∷ zs)
    → Linked mem cell prev (ys ++ d ∷ zs)
    → Bypassed mem (bypass mem (end_cell cell ys) (mem (d + 16)) (end_prev prev ys)) cell prev ys zs
bypass-Bypassed mem cell prev d ys [] apart l =
    let (back, last) = behind mem cell prev d ys [] l in
    rw last (record { forth = ground arith; rest = λ p ne off. ground arith })
bypass-Bypassed mem cell prev d ys (z ∷ zs) apart l =
    let (back, (at_next, pos, from, l')) = behind mem cell prev d ys (z ∷ zs) l in
    let (off, far, (off_z, far_z, apart_z)) = Spread-behind cell d ys (z ∷ zs) apart in
    let (z8, z16) = Far-off z zs far_z in
    let null : (z == 0) ≡ false = ground arith in
    let field : (z + 8 == 0) ≡ false = ground arith in
    rw (at_next, null, field)
      (record {
        forth = (
          ground arith,
          pos,
          ground arith,
          store-Linked (store mem (end_cell cell ys) z) (z + 8) (end_prev prev ys) (z + 16) z zs
              (λ e. omega arith) z8
              (store-Linked mem (end_cell cell ys) z (z + 16) z zs (λ e. off.1.0.1 e) off.1.1 l'),
        );
        rest = λ p ne off_p. ground arith;
      })

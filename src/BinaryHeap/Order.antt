-- ===== src/BinaryHeap/Order.antt =====
-- The heap order with a gap at one index, and how an exchange moves the gap.
use mathlib.Core.Path.{subst}
use native.Mathlib.Decide.{ℕ_discrete}
use nt_shm.Common.{ℕ, ◌-◌, ◌/◌, ◌<◌, ◌≡◌, ◌≢◌, sym, true, false, arith}
use nt_shm.Algo.Compare.{Comparison}
use nt_shm.BinaryHeap.{Elem, BinaryHeap, is_le}
use nt_shm.BinaryHeap.Swap.{at, Swapped}

-- A comparison function that orders the elements totally; different elements may compare as equal.
pub record IsOrder (compare_func : Elem → Elem → Comparison) : Type 0 where
  pub total : (a b : Elem) → is_le (compare_func a b) ≡ false → is_le (compare_func b a) ≡ true
  pub transitive :
      (a b c : Elem)
      → is_le (compare_func a b) ≡ true
      → is_le (compare_func b c) ≡ true
      → is_le (compare_func a c) ≡ true

abbrev pub parent : ℕ → ℕ
parent i = (i - 1) / 2

module _ (compare_func : Elem → Elem → Comparison) where
  -- Element i is not above element j.
  abbrev pub AtMost : BinaryHeap → ℕ → ℕ → Type 0
  AtMost heap i j = is_le (compare_func (at heap i) (at heap j)) ≡ true

  -- No element below n is under its parent.
  abbrev pub Ordered : ℕ → BinaryHeap → Type 0
  Ordered n heap = (i : ℕ) → 0 < i → i < n → AtMost heap (parent i) i

  -- Ordered, but index h may be under its parent.
  pub record Rising (n : ℕ) (heap : BinaryHeap) (h : ℕ) : Type 0 where
    pub ordered : (i : ℕ) → 0 < i → i < n → i ≢ h → AtMost heap (parent i) i
    pub skips : (c : ℕ) → 0 < c → c < n → parent c ≡ h → 0 < h → AtMost heap (parent h) c

  -- Ordered, but index h may be above its children.
  pub record Sinking (n : ℕ) (heap : BinaryHeap) (h : ℕ) : Type 0 where
    pub ordered : (i : ℕ) → 0 < i → i < n → parent i ≢ h → AtMost heap (parent i) i
    pub skips : (c : ℕ) → 0 < c → c < n → parent c ≡ h → 0 < h → AtMost heap (parent h) c

  module _ (ord : IsOrder compare_func) where
    pub climb-Rising :
        (n : ℕ) (heap after : BinaryHeap) (h : ℕ)
        → 0 < h
        → h < n
        → is_le (compare_func (at heap (parent h)) (at heap h)) ≡ false
        → Swapped heap (parent h) h after
        → Rising n heap h
        → Rising n after (parent h)
    climb-Rising n heap after h pos hn under s r =
        let p = parent h in
        let turned : AtMost heap h p = ord.total (at heap p) (at heap h) under in
        record {
          ordered = λ i ipos iN ne. elim (ℕ_discrete i h) [
            | yes e ↦ rw (e, s.first, s.second) turned
            | no other ↦ elim (ℕ_discrete (parent i) p) [
              | yes under_p ↦
                  rw (under_p, s.first, s.others i ne other)
                    (ord.transitive (at heap h) (at heap p) (at heap i) turned
                      (subst (λ (q : ℕ). AtMost heap q i) under_p (r.ordered i ipos iN other)))
              | no off_p ↦ elim (ℕ_discrete (parent i) h) [
                | yes under_h ↦
                    rw (under_h, s.second, s.others i ne other) (r.skips i ipos iN under_h pos)
                | no off_h ↦
                    rw (s.others (parent i) off_p off_h, s.others i ne other)
                      (r.ordered i ipos iN other)
              ]
            ]
          ];
          skips = λ c cpos cN under_p ppos.
              let upper : at after (parent p) ≡ at heap (parent p) =
                s.others (parent p) (λ e. omega (arith, e)) (λ e. omega (arith, e)) in
              let above : AtMost heap (parent p) p =
                r.ordered p ppos (omega arith) (λ e. omega (arith, e)) in
              elim (ℕ_discrete c h) [
                | yes e ↦ rw (e, s.second, upper) above
                | no other ↦
                    rw (s.others c (λ e. omega (arith, e)) other, upper)
                      (ord.transitive (at heap (parent p)) (at heap p) (at heap c) above
                        (subst (λ (q : ℕ). AtMost heap q c) under_p (r.ordered c cpos cN other)))
              ];
        }

    -- The gap moves to a child that is at most the other child and under its parent.
    pub sink-Sinking :
        (n : ℕ) (heap after : BinaryHeap) (h c : ℕ)
        → 0 < c
        → c < n
        → parent c ≡ h
        → ((i : ℕ) → 0 < i → i < n → parent i ≡ h → AtMost heap c i)
        → is_le (compare_func (at heap h) (at heap c)) ≡ false
        → Swapped heap h c after
        → Sinking n heap h
        → Sinking n after c
    sink-Sinking n heap after h c cpos cn under_h least above s r =
        let turned : AtMost heap c h = ord.total (at heap h) (at heap c) above in
        record {
          ordered = λ i ipos iN ne. elim (ℕ_discrete i h) [
            | yes e ↦
                let upper : at after (parent i) ≡ at heap (parent i) =
                  s.others (parent i) (λ q. omega (arith, q)) ne in
                let skip : AtMost heap (parent i) c =
                  subst (λ (q : ℕ). AtMost heap (parent q) c) (sym e)
                    (r.skips c cpos cn under_h (omega arith)) in
                rw (upper, e, s.first) (subst (λ (q : ℕ). AtMost heap (parent q) c) e skip)
            | no off ↦ elim (ℕ_discrete i c) [
              | yes e ↦ rw (e, under_h, s.first, s.second) turned
              | no other ↦ elim (ℕ_discrete (parent i) h) [
                | yes e ↦ rw (e, s.first, s.others i off other) (least i ipos iN e)
                | no off_h ↦
                    rw (s.others (parent i) off_h ne, s.others i off other)
                      (r.ordered i ipos iN off_h)
              ]
            ]
          ];
          skips = λ d dpos dN under_c _.
              let below : AtMost heap (parent d) d = r.ordered d dpos dN (λ e. omega (arith, e)) in
              rw (under_h, s.first, s.others d (λ e. omega (arith, e)) (λ e. omega (arith, e)))
                (subst (λ (q : ℕ). AtMost heap q d) under_c below);
        }

    -- Where the gap is in order, the heap is.
    pub Sinking-closed :
        (n : ℕ) (heap : BinaryHeap) (h : ℕ)
        → Sinking n heap h
        → ((c : ℕ) → 0 < c → c < n → parent c ≡ h → AtMost heap h c)
        → Ordered n heap
    Sinking-closed n heap h r closed = λ i ipos iN. elim (ℕ_discrete (parent i) h) [
      | yes e ↦ subst (λ (q : ℕ). AtMost heap q i) (sym e) (closed i ipos iN e)
      | no off ↦ r.ordered i ipos iN off
    ]

    pub Rising-closed :
        (n : ℕ) (heap : BinaryHeap) (h : ℕ)
        → Rising n heap h
        → (0 < h → h < n → AtMost heap (parent h) h)
        → Ordered n heap
    Rising-closed n heap h r closed = λ i ipos iN. elim (ℕ_discrete i h) [
      | yes e ↦
          subst (λ (q : ℕ). AtMost heap (parent q) q) (sym e) (closed (omega arith) (omega arith))
      | no off ↦ r.ordered i ipos iN off
    ]

-- ===== src/Undel/Ring/Walk.antt =====
-- How a walk round the ring of blocks moves, and that it meets no byte twice in one round.
use native.Mathlib.Nat.{mod-eq_of_lt}
use ext3u.Common.{
  ℕ, zero, suc, ◌+◌, ◌-◌, ◌*◌, ◌≤◌, ◌<◌, ◌≡◌, ap, ◌∙◌, ◌≢◌, ◌⊎◌, inl, inr, true, false, arith, ◌==◌,
  Bool-cases, ==→eq, ==→ne, eq→==, ne→==,
}
use ext3u.Undel.Ring.{
  Place, place, IsRing, InRing, next_block, next_place, walk, ring_size, position,
}

-- The next block is the following one, or the first one behind the last.
pub next_block-cases :
    (n b : ℕ)
    → 1 ≤ b
    → b ≤ n
    → ((b < n) × (next_block n b ≡ b + 1)) ⊎ ((b ≡ n) × (next_block n b ≡ 1))
next_block-cases n b low high = elim (Bool-cases (b == n)) [
  | inl e ↦ let same : b ≡ n = ==→eq b n e in inr (same, rw same (grind arith))
  | inr e ↦
      let other : b ≢ n = ==→ne b n e in
      let less : b < n = omega arith in inl (less, ap (λ k. k + 1) (mod-eq_of_lt less))
]

-- The blocks before a later block hold an earlier block too.
pub blocks_mono : (x y c : ℕ) → x < y → x * c + c ≤ y * c
blocks_mono x y c h = grind arith

suc-sub-one : {x : ℕ} → suc x - 1 ≡ x
suc-sub-one = omega arith

add-one-sub-one : {x : ℕ} → x + 1 - 1 ≡ x
add-one-sub-one = omega arith

pub block_split : (x c : ℕ) → 1 ≤ x → x * c ≡ (x - 1) * c + c
block_split zero c h = absurd (omega arith)
block_split (suc x) c h = rw suc-sub-one (omega arith)

module _ {n bs : ℕ} (ring : IsRing n bs) where
  pub next_place-InRing : {p : Place} → InRing n bs p → InRing n bs (next_place n bs p)
  next_place-InRing {p} h = ground (arith, next_block-cases n p.block, ring.some_room)

  pub position-lt : {p : Place} → InRing n bs p → position bs p < ring_size n bs
  position-lt {p} h = omega (arith, blocks_mono (p.block - 1) n (bs - 4) (omega arith))

  position-next_lt :
      {p : Place}
      → InRing n bs p
      → (p.offset + 1 == bs) ≡ false
      → position bs (next_place n bs p) ≡ position bs p + 1
  position-next_lt {p} h e = rw e (omega arith)

  position-next_end :
      {p : Place}
      → InRing n bs p
      → (p.offset + 1 == bs) ≡ true
      → (position bs (next_place n bs p) ≡ position bs p + 1)
        ⊎ ((position bs (next_place n bs p) ≡ 0) × (position bs p + 1 ≡ ring_size n bs))
  position-next_end {p} h e = rw e (elim (next_block-cases n p.block (omega arith) (omega arith)) [
    | inl (less, next) ↦
        inl (rw (next, add-one-sub-one) (omega (arith, split, ==→eq (p.offset + 1) bs e)))
    | inr (last, next) ↦ inr (
      rw next (omega arith),
      omega (arith, split, ==→eq (p.offset + 1) bs e, ap (λ b. b * (bs - 4)) last),
    )
  ])
    where
      split : p.block * (bs - 4) ≡ (p.block - 1) * (bs - 4) + (bs - 4)
      split = block_split p.block (bs - 4) (omega arith)

  -- One step adds one to the position, or comes from the last position to the first.
  pub position-next :
      {p : Place}
      → InRing n bs p
      → (position bs (next_place n bs p) ≡ position bs p + 1)
        ⊎ ((position bs (next_place n bs p) ≡ 0) × (position bs p + 1 ≡ ring_size n bs))
  position-next {p} h = elim (Bool-cases (p.offset + 1 == bs)) [
    | inl e ↦ position-next_end h e
    | inr e ↦ inl (position-next_lt h e)
  ]

  pub walk-InRing : (k : ℕ) {p : Place} → InRing n bs p → InRing n bs (walk n bs k p)
  walk-InRing zero h = h
  walk-InRing (suc k) h = walk-InRing k (next_place-InRing h)

  -- Less than a round adds its steps to the position, modulo the size of the ring.
  pub position-walk :
      (k : ℕ) {p : Place}
      → InRing n bs p
      → k < ring_size n bs
      → (position bs (walk n bs k p) ≡ position bs p + k)
        ⊎ (position bs (walk n bs k p) + ring_size n bs ≡ position bs p + k)
  position-walk zero h small = inl (omega arith)
  position-walk (suc k) {p} h small =
      omega (arith, position-next h, position-walk k (next_place-InRing h) (omega arith))

  -- Two different numbers of steps, both within one round, end at different bytes.
  pub walk-ne :
      (i j : ℕ) {p : Place}
      → InRing n bs p
      → i < j
      → j < ring_size n bs
      → walk n bs i p ≢ walk n bs j p
  walk-ne i j {p} h less small e = omega (
    arith,
    ap (position bs) e,
    position-walk i h (omega arith),
    position-walk j h small,
    position-lt h,
  )

-- Steps inside a block, to its end, and in two parts.
pub walk_within : (n bs k b o : ℕ) → o + k < bs → walk n bs k (place b o) ≡ place b (o + k)
walk_within n bs zero b o h = ap (place b) (omega arith)
walk_within n bs (suc k) b o h =
    rw (ne→== (o + 1) bs (omega arith))
      (walk_within n bs k b (o + 1) (omega arith) ∙ ap (place b) (omega arith))

pub walk_end :
    (n bs k b o : ℕ) → o + suc k ≡ bs → walk n bs (suc k) (place b o) ≡ place (next_block n b) 4
walk_end n bs zero b o h = rw (eq→== (o + 1) bs (omega arith))
walk_end n bs (suc k) b o h =
    rw (ne→== (o + 1) bs (omega arith)) (walk_end n bs k b (o + 1) (omega arith))

pub walk_add : (n bs i j : ℕ) (p : Place) → walk n bs (i + j) p ≡ walk n bs j (walk n bs i p)
walk_add n bs zero j p = ap (λ k. walk n bs k p) start
  where
    start : 0 + j ≡ j
    start = omega arith
walk_add n bs (suc i) j p = ap (λ k. walk n bs k p) shift ∙ walk_add n bs i j (next_place n bs p)
  where
    shift : suc i + j ≡ suc (i + j)
    shift = omega arith

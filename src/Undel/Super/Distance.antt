-- ===== src/Undel/Super/Distance.antt =====
-- The space that `ext3u_update_superblock` counts is the distance round the ring.
use mathlib.Core.Path.{subst}
use native.Mathlib.Decide.{dec_lt}
use ext3u.Common.{
  ℕ, zero, suc, ◌+◌, ◌-◌, ◌*◌, ◌≤◌, ◌<◌, ◌≡◌, refl, ap, ◌∙◌, ◌≢◌, ◌⊎◌, inl, inr, ◌==◌,
  if◌then◌else◌, leb, Bool-cases, ==→eq, ==→ne, eq→==, ne→==, ok, arith,
}
use ext3u.Undel.Ring.{Place, place, IsRing, InRing, next_block, next_place, ring_size, position}
use ext3u.Undel.Ring.Walk.{next_block-cases, blocks_mono, block_split, position-next, position-lt}
use ext3u.Undel.Super.{distance_loop}

-- The number of bytes from one place on to another, over the end of the ring where the second one
-- stands before the first.
unfoldable pub distance : (n bs : ℕ) → Place → Place → ℕ
distance n bs p q =
    if leb (position bs p) (position bs q)
    then position bs q - position bs p
    else position bs q + ring_size n bs - position bs p

module _ {n bs : ℕ} (ring : IsRing n bs) where
  distance-step :
      {p q : Place}
      → InRing n bs p
      → InRing n bs q
      → position bs p ≢ position bs q
      → distance n bs p q ≡ 1 + distance n bs (next_place n bs p) q
  unfolding distance
  distance-step {p} {q} inp inq other =
      by_cases (position bs p) (position bs q) (position bs (next_place n bs p)) (ring_size n bs)
        other (position-lt ring inp) (position-lt ring inq) (position-next ring inp)
    where
      by_cases :
          (x y z size : ℕ)
          → x ≢ y
          → x < size
          → y < size
          → (z ≡ x + 1) ⊎ ((z ≡ 0) × (x + 1 ≡ size))
          → (if leb x y then y - x else y + size - x)
            ≡ 1 + (if leb z y then y - z else y + size - z)
      by_cases x y z size other lx ly next = ground arith

  -- Positions of whole blocks, the block behind the last one being the first.
  position-next_block :
      {b o : ℕ}
      → InRing n bs (place b o)
      → ((b < n)
          × (position bs (place (next_block n b) 4) + (o - 4) ≡ position bs (place b o) + (bs - 4)))
        ⊎ ((b ≡ n)
            × (position bs (place (next_block n b) 4) ≡ 0)
            × (position bs (place b o) + (bs - o) ≡ ring_size n bs))
  position-next_block {b} {o} h = elim (next_block-cases n b h.block_low h.block_high) [
    | inl (less, next) ↦ inl (less, rw (next, back) (omega (arith, split)))
    | inr (last, next) ↦
        inr (last, rw next (omega arith), omega (arith, split, ap (λ k. k * (bs - 4)) last))
  ]
    where
      split : b * (bs - 4) ≡ (b - 1) * (bs - 4) + (bs - 4)
      split = block_split b (bs - 4) h.block_low

      back : b + 1 - 1 ≡ b
      back = omega arith

  distance-fill :
      {b o c e : ℕ}
      → InRing n bs (place b o)
      → InRing n bs (place c e)
      → b ≢ c
      → distance n bs (place b o) (place c e)
        ≡ (bs - o) + distance n bs (place (next_block n b) 4) (place c e)
  unfolding distance
  distance-fill {b} {o} {c} {e} inp inq other =
      by_cases (position bs (place b o)) (position bs (place c e))
        (position bs (place (next_block n b) 4)) (ring_size n bs) (bs - o) next before
        (position-lt ring inp) (position-lt ring inq) (position-lt ring there) (omega arith)
    where
      there : InRing n bs (place (next_block n b) 4)
      there = omega (arith, next_block-cases n b inp.block_low inp.block_high, ring.some_room)

      next :
          (position bs (place (next_block n b) 4) ≡ position bs (place b o) + (bs - o))
          ⊎ ((b ≡ n)
              × (position bs (place (next_block n b) 4) ≡ 0)
              × (position bs (place b o) + (bs - o) ≡ ring_size n bs))
      next = elim (position-next_block inp) [
        | inl (less, eq) ↦ inl (omega arith)
        | inr facts ↦ inr facts
      ]

      before :
          (position bs (place c e) < position bs (place b o))
          ⊎ ((b < n) × (position bs (place b o) + (bs - o) ≤ position bs (place c e)))
      before = elim (dec_lt c b) [
        | yes less ↦ inl (omega (arith, blocks_mono (c - 1) (b - 1) (bs - 4) (omega arith)))
        | no more ↦
            inr (omega arith, omega (arith, blocks_mono (b - 1) (c - 1) (bs - 4) (omega arith)))
      ]

      by_cases :
          (x y z size r : ℕ)
          → (z ≡ x + r) ⊎ ((b ≡ n) × (z ≡ 0) × (x + r ≡ size))
          → (y < x) ⊎ ((b < n) × (x + r ≤ y))
          → x < size
          → y < size
          → z < size
          → 0 < r
          → (if leb x y then y - x else y + size - x)
            ≡ r + (if leb z y then y - z else y + size - z)
      by_cases x y z size r f g lx ly lz pos = ground arith

-- One round of the loop, in each of its branches.
module _ (n bs fuel sb so eb eo free : ℕ) where
  distance_loop-done : sb ≡ eb → so ≡ eo → distance_loop n bs (suc fuel) sb so eb eo free ≡ ok free
  unfolding distance_loop
  distance_loop-done e f = rw (eq→== sb eb e, eq→== so eo f, distance_loop)

  pub distance_loop-block :
      sb ≢ eb
      → distance_loop n bs (suc fuel) sb so eb eo free
        ≡ distance_loop n bs fuel (next_block n sb) 4 eb eo (free + bs - so)
  unfolding distance_loop
  distance_loop-block e = rw (ne→== sb eb e, distance_loop) (rw (ne→== sb eb e, distance_loop))

  distance_loop-byte :
      sb ≡ eb
      → so ≢ eo
      → so + 1 ≢ bs
      → distance_loop n bs (suc fuel) sb so eb eo free
        ≡ distance_loop n bs fuel sb (so + 1) eb eo (free + 1)
  unfolding distance_loop
  distance_loop-byte e f g =
      rw (eq→== sb eb e, ne→== so eo f, distance_loop)
        (rw (eq→== sb eb e, distance_loop) (rw (ne→== (so + 1) bs g, distance_loop)))

  distance_loop-wrap :
      sb ≡ eb
      → so ≢ eo
      → so + 1 ≡ bs
      → distance_loop n bs (suc fuel) sb so eb eo free
        ≡ distance_loop n bs fuel (next_block n sb) 4 eb eo (free + 1)
  unfolding distance_loop
  distance_loop-wrap e f g =
      rw (eq→== sb eb e, ne→== so eo f, distance_loop)
        (rw (eq→== sb eb e, distance_loop) (rw (eq→== (so + 1) bs g, distance_loop)))

distance-within : (n bs b o e : ℕ) → 4 ≤ o → o ≤ e → distance n bs (place b o) (place b e) ≡ e - o
unfolding distance
distance-within n bs b o e low h = ground arith

module _ {n bs : ℕ} (ring : IsRing n bs) where
  -- From a byte of the end's block up to the end.
  loop_up :
      (fuel b o e free : ℕ)
      → 4 ≤ o
      → o ≤ e
      → e < bs
      → e - o < fuel
      → distance_loop n bs fuel b o b e free ≡ ok (free + distance n bs (place b o) (place b e))
  loop_up zero b o e free low up high fuels = absurd (omega arith)
  loop_up (suc fuel) b o e free low up high fuels = elim (dec_lt o e) [
    | no same ↦
        distance_loop-done n bs fuel b o b e free refl (omega arith)
        ∙ ap ok (omega (arith, distance-within n bs b o e low up))
    | yes less ↦
        distance_loop-byte n bs fuel b o b e free refl (omega arith) (omega arith)
        ∙ loop_up fuel b (o + 1) e (free + 1) (omega arith) (omega arith) high (omega arith)
        ∙ ap ok (
            omega (
              arith,
              distance-within n bs b o e low up,
              distance-within n bs b (o + 1) e (omega arith) (omega arith),
            ))
  ]

  -- Blocks still to go from a block to another one, round the ring.
  abbrev blocks_to : ℕ → ℕ → ℕ
  blocks_to b c = if leb b c then c - b else c + n - b

  blocks_to-next :
      (b c : ℕ)
      → 1 ≤ b
      → b ≤ n
      → 1 ≤ c
      → c ≤ n
      → b ≢ c
      → blocks_to b c ≡ 1 + blocks_to (next_block n b) c
  blocks_to-next b c lb hb lc hc other = by_cases (next_block n b) (next_block-cases n b lb hb)
    where
      by_cases :
          (x : ℕ)
          → ((b < n) × (x ≡ b + 1)) ⊎ ((b ≡ n) × (x ≡ 1))
          → blocks_to b c ≡ 1 + (if leb x c then c - x else c + n - x)
      by_cases x next = ground arith

  next_block-InRing : {b o : ℕ} → InRing n bs (place b o) → InRing n bs (place (next_block n b) 4)
  next_block-InRing {b} h =
      omega (arith, next_block-cases n b h.block_low h.block_high, ring.some_room)

  -- Over whole blocks to the end's block, and up to the end.
  loop_blocks :
      (fuel b o c e free : ℕ)
      → InRing n bs (place b o)
      → InRing n bs (place c e)
      → b ≢ c
      → blocks_to b c + bs < fuel
      → distance_loop n bs fuel b o c e free ≡ ok (free + distance n bs (place b o) (place c e))
  loop_blocks zero b o c e free inp inq other fuels = absurd (omega arith)
  loop_blocks (suc fuel) b o c e free inp inq other fuels =
      let there = next_block-InRing inp in
      let closer =
        blocks_to-next b c inp.block_low inp.block_high inq.block_low inq.block_high other in
      let further : distance_loop n bs fuel (next_block n b) 4 c e (free + bs - o)
          ≡ ok (free + bs - o + distance n bs (place (next_block n b) 4) (place c e)) =
        elim (Bool-cases (next_block n b == c)) [
          | inl arrived ↦ rw (==→eq (next_block n b) c arrived) (
              loop_up fuel c 4 e (free + bs - o) (omega arith) inq.offset_low inq.offset_high
                (omega arith))
          | inr not_yet ↦
              loop_blocks fuel (next_block n b) 4 c e (free + bs - o) there inq
                (==→ne (next_block n b) c not_yet) (omega arith)
        ] in
      distance_loop-block n bs fuel b o c e free other
      ∙ further
      ∙ ap ok (omega (arith, distance-fill ring inp inq other))

  blocks_to-lt : (b c : ℕ) → 1 ≤ b → b ≤ n → 1 ≤ c → c ≤ n → blocks_to b c < n
  blocks_to-lt b c lb hb lc hc = ground arith

  -- Over the first bytes of the ring's next round, when the end is in the same block but behind.
  from_next :
      (fuel b e free : ℕ)
      → InRing n bs (place b e)
      → n + bs < fuel
      → distance_loop n bs fuel (next_block n b) 4 b e free
        ≡ ok (free + distance n bs (place (next_block n b) 4) (place b e))
  from_next fuel b e free inq fuels = elim (Bool-cases (next_block n b == b)) [
    | inl arrived ↦
        rw (==→eq (next_block n b) b arrived)
          (loop_up fuel b 4 e free (omega arith) inq.offset_low inq.offset_high (omega arith))
    | inr not_yet ↦
        let there = next_block-InRing inq in
        loop_blocks fuel (next_block n b) 4 b e free there inq (==→ne (next_block n b) b not_yet) (
          omega (
            arith,
            blocks_to-lt (next_block n b) b there.block_low there.block_high inq.block_low
                inq.block_high,
          ))
  ]

  loop_round :
      (fuel b o e free : ℕ)
      → InRing n bs (place b o)
      → InRing n bs (place b e)
      → e < o
      → n + bs + (bs - o) < fuel
      → distance_loop n bs fuel b o b e free ≡ ok (free + distance n bs (place b o) (place b e))
  loop_round zero b o e free inp inq behind fuels = absurd (omega arith)
  loop_round (suc fuel) b o e free inp inq behind fuels =
      let step = distance-step ring inp inq (omega arith) in
      elim (Bool-cases (o + 1 == bs)) [
        | inl last ↦
            let step' : distance n bs (place b o) (place b e)
                ≡ 1 + distance n bs (place (next_block n b) 4) (place b e) =
              rw last at step in
            distance_loop-wrap n bs fuel b o b e free refl (omega arith) (==→eq (o + 1) bs last)
            ∙ from_next fuel b e (free + 1) inq (omega arith)
            ∙ ap ok (omega arith)
        | inr inner ↦
            let step' : distance n bs (place b o) (place b e)
                ≡ 1 + distance n bs (place b (o + 1)) (place b e) =
              rw inner at step in
            let short : o + 1 ≢ bs = ==→ne (o + 1) bs inner in
            distance_loop-byte n bs fuel b o b e free refl (omega arith) short
            ∙ loop_round fuel b (o + 1) e (free + 1) (omega arith) inq (omega arith) (omega arith)
            ∙ ap ok (omega arith)
      ]

  -- The loop that counts freed bytes ends, between any two places of the ring, with the distance
  -- from the first to the second, if the fuel is more than the blocks and the bytes of two
  -- blocks.
  pub distance_loop-distance :
      (fuel : ℕ) (p q : Place) (free : ℕ)
      → InRing n bs p
      → InRing n bs q
      → n + bs * 2 < fuel
      → distance_loop n bs fuel p.block p.offset q.block q.offset free
        ≡ ok (free + distance n bs p q)
  distance_loop-distance fuel p q free inp inq fuels = elim (Bool-cases (p.block == q.block)) [
    | inr other ↦
        loop_blocks fuel p.block p.offset q.block q.offset free inp inq
          (==→ne p.block q.block other)
          (omega (
            arith,
            blocks_to-lt p.block q.block inp.block_low inp.block_high inq.block_low inq.block_high,
          ))
    | inl same ↦ same_block (==→eq p.block q.block same)
  ]
    where
      same_block :
          p.block ≡ q.block
          → distance_loop n bs fuel p.block p.offset q.block q.offset free
            ≡ ok (free + distance n bs p q)
      same_block e =
          subst
            (λ c.
              distance_loop n bs fuel p.block p.offset c q.offset free
              ≡ ok (free + distance n bs p (place c q.offset)))
            e
            (elim (dec_lt q.offset p.offset) [
              | yes behind ↦
                  loop_round fuel p.block p.offset q.offset free inp (omega arith) behind
                    (omega arith)
              | no up ↦
                  loop_up fuel p.block p.offset q.offset free inp.offset_low (omega arith)
                    inq.offset_high (omega arith)
            ])

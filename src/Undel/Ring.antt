-- ===== src/Undel/Ring.antt =====
-- The blocks of the undelete list as a ring: blocks 1 to `n` of `bs` bytes, each behind a header of
-- four bytes. The positions that the loops of ext3u/undel.c pass through, one by one.
pub mod Walk
use ext3u.Common.{ℕ, zero, suc, ◌+◌, ◌-◌, ◌*◌, ◌%◌, ◌≤◌, ◌<◌, ◌==◌, if◌then◌else◌}

-- A byte of the file: a logical block and an offset in it.
pub record Place : Type 0 where
  pub block : ℕ
  pub offset : ℕ

abbrev pub place : ℕ → ℕ → Place
place b o = record { block = b; offset = o }

-- A ring: `n` blocks, each with room behind its header.
pub record IsRing (n bs : ℕ) : Type 0 where
  pub some_block : 1 ≤ n
  pub some_room : 4 < bs

pub record InRing (n bs : ℕ) (p : Place) : Type 0 where
  pub block_low : 1 ≤ p.block
  pub block_high : p.block ≤ n
  pub offset_low : 4 ≤ p.offset
  pub offset_high : p.offset < bs

-- The block behind a block, `(block % f_blocks) + 1`.
abbrev pub next_block : ℕ → ℕ → ℕ
next_block n b = b % n + 1

-- The byte behind a byte, over the end of a block past the next block's header.
abbrev pub next_place : (n bs : ℕ) → Place → Place
next_place n bs p =
    if p.offset + 1 == bs then place (next_block n p.block) 4 else place p.block (p.offset + 1)

abbrev pub walk : (n bs : ℕ) → ℕ → Place → Place
walk n bs zero p = p
walk n bs (suc k) p = walk n bs k (next_place n bs p)

-- The number of bytes of the ring, and of those before a place.
abbrev pub ring_size : (n bs : ℕ) → ℕ
ring_size n bs = n * (bs - 4)

abbrev pub position : (bs : ℕ) → Place → ℕ
position bs p = (p.block - 1) * (bs - 4) + (p.offset - 4)

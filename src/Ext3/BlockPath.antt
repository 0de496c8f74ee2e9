-- ===== src/Ext3/BlockPath.antt =====
-- ext3u/inode.c, `ext3_block_to_path`: the path of a file's block in the tree of indirect blocks. An
-- indirect block holds `ptrs` numbers of blocks, a power of two.
pub mod Inverse
use ext3u.Common.{ℕ, zero, suc, ◌+◌, ◌-◌, ◌*◌, ◌/◌, ◌%◌, ◌^◌, ltb, if◌then◌else◌, List, [], ◌∷◌}

-- A `long`.
pub data ℤ : Type 0 where
  pos : ℕ → ℤ
  negsuc : ℕ → ℤ

-- `EXT3_NDIR_BLOCKS`, `EXT3_IND_BLOCK`, `EXT3_DIND_BLOCK` and `EXT3_TIND_BLOCK` of the kernel.
abbrev pub ndir_blocks : ℕ
ndir_blocks = 12

-- `ext3_block_to_path`, for `ptrs_bits` of `EXT3_ADDR_PER_BLOCK_BITS`: the offsets, none when the block is
-- out of range, and `boundary`. `x & (ptrs - 1)` is `x % ptrs`.
pub block_to_path : (ptrs_bits : ℕ) → ℤ → List ℕ
block_to_path ptrs_bits (negsuc b) = []
block_to_path ptrs_bits (pos b) =
    let ptrs = 2 ^ ptrs_bits in
    let double_blocks = 2 ^ (ptrs_bits * 2) in
    let b₁ = b - ndir_blocks in
    let b₂ = b₁ - ptrs in
    let b₃ = b₂ - double_blocks in
    if ltb b ndir_blocks
    then b ∷ []
    else if ltb b₁ ptrs
    then 12 ∷ b₁ ∷ []
    else if ltb b₂ double_blocks
    then 13 ∷ b₂ / 2 ^ ptrs_bits ∷ b₂ % ptrs ∷ []
    else if ltb (b₃ / 2 ^ (ptrs_bits * 2)) ptrs
    then 14 ∷ b₃ / 2 ^ (ptrs_bits * 2) ∷ b₃ / 2 ^ ptrs_bits % ptrs ∷ b₃ % ptrs ∷ []
    else []

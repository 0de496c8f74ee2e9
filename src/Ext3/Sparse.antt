-- ===== src/Ext3/Sparse.antt =====
-- ext3u/balloc.c, `ext3_group_sparse`: the block groups that hold a copy of the superblock. The `int`
-- variables are taken as they are: for a number of groups below 2 ^ 28 no product overflows.
pub mod Powers
use ext3u.Common.{
  ℕ, zero, suc, ◌+◌, ◌*◌, ◌%◌, Bool, true, false, ◌==◌, ltb, leb, if◌then◌else◌, Result, ok, err,
  hangs,
}

-- The loop of `test_root`: `num` grows in each round, so as many rounds as `a` are enough.
pub root_loop : (b fuel a num : ℕ) → Result Bool
root_loop b zero a num = hangs
root_loop b (suc fuel) a num = elim (ltb num a) [
  | true ↦ root_loop b fuel a (num * b)
  | false ↦ ok (num == a)
]

-- `test_root`.
pub test_root : (a b : ℕ) → Result Bool
unfolding root_loop
test_root a b = root_loop b (a + 1) a b

-- `||` of two tests.
pub either : Result Bool → Result Bool → Result Bool
either (ok true) s = ok true
either (ok false) s = s
either (err e) s = err e
either hangs s = hangs

-- `ext3_group_sparse`.
pub group_sparse : (group : ℕ) → Result Bool
unfolding test_root either
group_sparse group =
    if leb group 1
    then ok true
    else if group % 2 == 0
    then ok false
    else either (either (test_root group 7) (test_root group 5)) (test_root group 3)

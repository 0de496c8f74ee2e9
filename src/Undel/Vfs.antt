-- ===== src/Undel/Vfs.antt =====
-- The calls of the kernel's directory cache, of the journal and of stock ext3 that ext3u/undel.c and
-- ext3u/namei.c use to restore a file. Directories and files are inode numbers; the cache, the directories on
-- disk and the inodes are a state `V` that the calls read and change.
use ext3u.Common.{ℕ, Bool, Option, List, Result}
use ext3u.Undel.Restore.{Inode, Tree}

-- `d_lookup` gives `none` for no dentry, `some none` for a negative one. `rehash` is `d_rehash` of a new,
-- negative dentry, `instantiate` is `d_instantiate` of it, and `set_inode` stores what `ext3u_restore_inode`
-- has filled. `d_find_alias` says whether a directory has a dentry, `allocates` whether `d_alloc_name` returns
-- one, `commits` what `journal_force_commit_nested` returns, and `has_free_blocks` the test of that name.
pub record Vfs (V : Type 0) : Type 0 where
  pub tree : V → Tree
  pub d_lookup : V → (dir : ℕ) (name : List ℕ) → Option (Option ℕ)
  pub d_find_alias : V → ℕ → Bool
  pub d_alloc_root : V → Bool
  pub allocates : V → (dir : ℕ) (name : List ℕ) → Bool
  pub rehash : V → (dir : ℕ) (name : List ℕ) → V
  pub instantiate : V → (dir : ℕ) (name : List ℕ) (ino : ℕ) → V
  pub ext3_mkdir : V → (dir : ℕ) (name : List ℕ) → Result (Unit {0}) × V
  pub ext3_journal_start : V → ℕ → Result (Unit {0})
  pub ext3_new_inode : V → (dir : ℕ) → Result ℕ × V
  pub set_inode : V → (ino : ℕ) → Result Inode → V
  pub ext3_add_nondir : V → (dir : ℕ) (name : List ℕ) (ino : ℕ) → Result (Unit {0}) × V
  pub has_free_blocks : V → Bool
  pub commits : V → Bool

-- ===== src/Undel/Create.antt =====
-- ext3u/namei.c, `ext3u_create`: the file is made in its directory and gets its old inode.
pub mod Ends
use ext3u.Common.{
  ℕ, zero, suc, ◌+◌, Bool, true, false, not, ◌&&◌, ◌||◌, ltb, ◌==◌, if◌then◌else◌, Option, none,
  some, List, [], ◌∷◌, Memory, Result, ok, err, hangs, eio, eexist,
}
use ext3u.Undel.Restore.{RawInode, InodeSizes, restore_inode}
use ext3u.Undel.Vfs.{Vfs}

abbrev pub enospc : ℕ
enospc = 28

module _ {V : Type 0} (F : Vfs V) (S : InodeSizes) (raw : Memory → RawInode) where
  -- `ext3_should_retry_alloc`, and `*retries` after it.
  unfoldable pub should_retry : V → (retries : ℕ) → Bool × ℕ
  should_retry v retries =
      if not (F.has_free_blocks v)
      then (false, retries)
      else if ltb 3 retries
      then (false, retries + 1)
      else (F.commits v, retries + 1)

  -- The dentry is hashed, unless it is already.
  unfoldable pub hashed : V → (dir : ℕ) (name : List ℕ) → V
  hashed v dir name = elim (F.d_lookup v dir name) [ none ↦ F.rehash v dir name | some dentry ↦ v ]

  -- One attempt, from the start of the handle to its stop: the inode of `ext3_new_inode` is filled, whatever
  -- `ext3u_restore_inode` returns, and entered in the directory.
  unfoldable pub attempt : V → (dir : ℕ) (name : List ℕ) → Memory → Result (Unit {0}) × V
  unfolding hashed
  attempt v dir name de =
      let (made, v₁) = F.ext3_new_inode v dir in
      elim made [
        | ok ino ↦
            F.ext3_add_nondir (hashed (F.set_inode v₁ ino (restore_inode S ino (raw de))) dir name)
              dir name ino
        | err e ↦ (err e, v₁)
        | hangs ↦ (hangs, v₁)
      ]

  -- The label `retry`; `ext3_should_retry_alloc` allows four more attempts.
  unfoldable pub create_loop :
      (fuel retries : ℕ) → V → (dir : ℕ) (name : List ℕ) → Memory → Result (Unit {0}) × V
  unfolding attempt should_retry
  create_loop zero retries v dir name de = (hangs, v)
  create_loop (suc fuel) retries v dir name de =
      let (result, v') = attempt v dir name de in
      let (again, retries') = should_retry v' retries in
      elim (F.ext3_journal_start v dir) [
        | err e ↦ (err e, v)
        | hangs ↦ (hangs, v)
        | ok x ↦ elim result [
          | ok y ↦ (ok y, v')
          | hangs ↦ (hangs, v')
          | err e ↦ elim ((e == enospc) && again) [
            | true ↦ create_loop fuel retries' v' dir name de
            | false ↦ (err e, v')
          ]
        ]
      ]

  -- `ext3u_create`.
  unfoldable pub create : V → (dir : ℕ) (name : List ℕ) → Memory → Result (Unit {0}) × V
  unfolding create_loop
  create v dir name de = elim (F.d_lookup v dir name) [
    | some (some ino) ↦ (err eexist, v)
    | some none ↦ create_loop 5 0 v dir name de
    | none ↦ if F.allocates v dir name then create_loop 5 0 v dir name de else (err eio, v)
  ]

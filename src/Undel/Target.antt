-- ===== src/Undel/Target.antt =====
-- ext3u/namei.c, the directory in which a file is restored: `ext3u_mkdir` and
-- `ext3u_get_target_directory`. Reference counts are not modelled; `hangs` is an access through a null pointer.
pub mod Existing
use ext3u.Common.{
  ℕ, Bool, true, false, not, ◌&&◌, ◌||◌, if◌then◌else◌, Option, none, some, List, [], ◌∷◌, Result,
  ok, err, hangs, eio, enoent,
}
use ext3u.Undel.Path.{is_root_name}
use ext3u.Undel.Restore.{Tree, tokens}
use ext3u.Undel.Vfs.{Vfs}

module _ {V : Type 0} (F : Vfs V) where
  -- The dentry of `ext3u_mkdir`, hashed: the one of the cache, or a new one.
  pub named : V → (dir : ℕ) (name : List ℕ) → Option V
  named v dir name = elim (F.d_lookup v dir name) [
    | some dentry ↦ some v
    | none ↦ if F.allocates v dir name then some (F.rehash v dir name) else none
  ]

  -- `ext3u_mkdir`.
  pub mkdir : V → (dir : ℕ) (name : List ℕ) → Result (Unit {0}) × V
  unfolding named
  mkdir v dir name =
      if not (F.d_find_alias v dir)
      then (err enoent, v)
      else elim (named v dir name) [ none ↦ (err enoent, v) | some v' ↦ F.ext3_mkdir v' dir name ]

  -- A directory that is neither in the cache nor on disk is made, and looked up again.
  pub make_step : V → (dir : ℕ) (name : List ℕ) → Result ℕ × V
  unfolding mkdir
  make_step v dir name =
      let (made, v') = mkdir v dir name in
      elim made [
        | ok x ↦ elim (F.d_lookup v' dir name) [
          | none ↦ (err enoent, v')
          | some none ↦ (hangs, v')
          | some (some ino) ↦ (ok ino, v')
        ]
        | err e ↦ (err enoent, v')
        | hangs ↦ (hangs, v')
      ]

  -- A directory that is found on disk only gets a dentry.
  pub disk_step : V → (dir : ℕ) (name : List ℕ) (ino : ℕ) → Result ℕ × V
  disk_step v dir name ino =
      if not (F.allocates v dir name)
      then (err enoent, v)
      else if not ((F.tree v).iget ino)
      then (err enoent, F.rehash v dir name)
      else (ok ino, F.instantiate (F.rehash v dir name) dir name ino)

  -- One round of the loop of `ext3u_get_target_directory`, for a token that is not empty.
  pub target_step : V → (dir : ℕ) (name : List ℕ) → Result ℕ × V
  unfolding make_step disk_step
  target_step v dir name = elim (F.d_lookup v dir name) [
    | some (some ino) ↦ (ok ino, v)
    | some none ↦ make_step v dir name
    | none ↦ elim ((F.tree v).ext3_find_entry dir name) [
      | some ino ↦ disk_step v dir name ino
      | none ↦ make_step v dir name
    ]
  ]

  unfoldable pub target_loop : (names : List (List ℕ)) → V → (dir : ℕ) → Result ℕ × V
  unfolding target_step
  target_loop [] v dir = (ok dir, v)
  target_loop ([] ∷ names) v dir = target_loop names v dir
  target_loop ((c ∷ name) ∷ names) v dir =
      let (found, v') = target_step v dir (c ∷ name) in
      elim found [ ok ino ↦ target_loop names v' ino | err e ↦ (err e, v') | hangs ↦ (hangs, v') ]

  -- `ext3u_get_target_directory`.
  unfoldable pub target_directory : (path : List ℕ) → V → Result ℕ × V
  unfolding target_loop
  target_directory path v =
      let root = (F.tree v).root_ino in
      if not ((F.tree v).iget root)
      then (err eio, v)
      else if not (F.d_find_alias v root || F.d_alloc_root v)
      then (err eio, v)
      else if is_root_name path
      then (ok root, v)
      else target_loop (tokens path []) v root

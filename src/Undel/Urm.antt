-- ===== src/Undel/Urm.antt =====
-- ext3u/undel.c, `ext3u_urm`: an entry is found by its path, its file is made again, and the entry is taken
-- off the list. The state is the directories, the cache among them, and the undelete file. Locks, handles and the
-- writing of dirty buffers are not modelled.
pub mod Outcome
pub mod Taken
mod Tests
use ext3u.Common.{
  ℕ, zero, suc, ◌+◌, Bool, true, false, not, ◌&&◌, ◌||◌, ◌==◌, if◌then◌else◌, Option, none, some,
  List, [], ◌∷◌, Memory, Result, ok, err, hangs, eio, eperm, enoent, enodata,
}
use ext3u.Undel.Layout.{InodeLayout, d_path_length, entry_size}
use ext3u.Undel.Disk.{Disk, Env}
use ext3u.Undel.Super.{update_superblock, update_delete}
use ext3u.Undel.Links.{delete_entry}
use ext3u.Undel.Search.{get_entry}
use ext3u.Undel.Path.{get_file_name}
use ext3u.Undel.Restore.{RawInode, InodeSizes, Tree, lookup}
use ext3u.Undel.Vfs.{Vfs}
use ext3u.Undel.Target.{target_directory}
use ext3u.Undel.Create.{create}

-- The bytes of `d_path`, and a string up to its NUL.
pub path_bytes : (n : ℕ) → Memory → (at : ℕ) → List ℕ
path_bytes zero m at = []
path_bytes (suc n) m at = m at ∷ path_bytes n m (at + 1)

pub to_nul : List ℕ → List ℕ
to_nul [] = []
to_nul (c ∷ s) = let rest = to_nul s in if c == 0 then [] else c ∷ rest

-- The directory and the name that `ext3u_get_file_name` makes of the entry's path. `none` is a walk past
-- the start of the path.
pub split_path : InodeLayout → Memory → Option (List ℕ × List ℕ)
unfolding path_bytes to_nul
split_path L de = elim (get_file_name (path_bytes (d_path_length de) de (entry_size L))) [
  | none ↦ none
  | some (dir, name) ↦ some (to_nul dir, to_nul name)
]

-- What a call needs besides the state: the layouts, the hash, the user, the number of the undelete
-- file's inode, and whether `ext3_bread` returns the superblock again when the entry has been deleted.
pub record Setting (V : Type 0) : Type 0 where
  pub layout : InodeLayout
  pub env : Env
  pub vfs : Vfs V
  pub sizes : InodeSizes
  pub raw : Memory → RawInode
  pub hash : List ℕ → ℕ
  pub fsuid : ℕ
  pub undel_dir_ino : ℕ
  pub super_again : Bool

module _ {V : Type 0} (C : Setting V) where
  -- The directory to restore in, and `may_create`; a directory that the user names has to be there.
  pub choose_directory : V → (dir : List ℕ) (place : Option (List ℕ)) → Result (List ℕ × Bool)
  choose_directory v dir (some w) =
      let (found, may_create) = lookup (C.vfs.tree v) w true in
      elim found [
        | ok x ↦ ok (w, may_create)
        | err e ↦ err (if e == eperm then e else enodata)
        | hangs ↦ hangs
      ]
  choose_directory v [] none = ok (b'/' ∷ [], true)
  choose_directory v (c ∷ dir) none = ok (c ∷ dir, true)

  -- The check of the permission.
  pub may_restore : V → (dir_path : List ℕ) (may_create : Bool) → Result (Unit {0})
  may_restore v dir_path may_create =
      let (found, may_create') = lookup (C.vfs.tree v) dir_path may_create in
      elim found [
        | ok x ↦ ok tt
        | err e ↦ if (e == eperm) || ((e == enoent) && not may_create') then err eperm else ok tt
        | hangs ↦ hangs
      ]

  -- The entry taken off the list, and the superblock brought up to date; what `ext3u_delete_entry` returns
  -- is not looked at.
  pub forget : Memory → Disk → Result (Unit {0}) × Disk
  forget de d =
      let (result, d') = delete_entry C.env de d in
      if not C.super_again
      then (err eio, d')
      else elim (update_superblock C.layout d'.usb de update_delete) [
        | ok usb ↦ (ok tt, record d' { usb = usb })
        | err e ↦ (ok tt, d')
        | hangs ↦ (hangs, d')
      ]

  -- The file made in the directory.
  pub make_file : V → (dir_path name : List ℕ) → Memory → Result (Unit {0}) × V
  make_file v dir_path name de =
      let (parent, v₁) = target_directory C.vfs dir_path v in
      elim parent [
        | ok dir ↦ create C.vfs C.sizes C.raw v₁ dir name de
        | err e ↦ (err eio, v₁)
        | hangs ↦ (hangs, v₁)
      ]

  -- From the check of the permission on.
  pub restore_at :
      V
      → Disk
      → (dir_path : List ℕ) (may_create : Bool) (name : List ℕ) → Memory
      → Result (Unit {0}) × V × Disk
  unfolding may_restore make_file forget
  restore_at v d dir_path may_create name de =
      let (made, v₁) = make_file v dir_path name de in
      let (gone, d₁) = forget de d in
      elim (may_restore v dir_path may_create) [
        | err e ↦ (err e, v, d)
        | hangs ↦ (hangs, v, d)
        | ok x ↦ elim made [
          | err e ↦ (err e, v₁, d)
          | hangs ↦ (hangs, v₁, d)
          | ok y ↦ (gone, v₁, d₁)
        ]
      ]

  -- From the entry on.
  pub restore_entry : V → Disk → (place : Option (List ℕ)) → Memory → Result (Unit {0}) × V × Disk
  unfolding split_path choose_directory restore_at
  restore_entry v d place de = elim (split_path C.layout de) [
    | none ↦ (hangs, v, d)
    | some (dir, name) ↦ elim (choose_directory v dir place) [
      | ok (dir_path, may_create) ↦ restore_at v d dir_path may_create name de
      | err e ↦ (err e, v, d)
      | hangs ↦ (hangs, v, d)
    ]
  ]

  -- From the search on.
  pub find_and_restore :
      (path : List ℕ) (place : Option (List ℕ)) → V → Disk → Result (Unit {0}) × V × Disk
  unfolding restore_entry
  find_and_restore path place v d = elim (get_entry C.layout C.env C.hash C.fsuid path d) [
    | ok (de, entries) ↦ restore_entry v d place de
    | err e ↦ (err e, v, d)
    | hangs ↦ (hangs, v, d)
  ]

  -- `ext3u_urm`; the path of the directory is a null pointer or `some`.
  pub urm : (path : List ℕ) (place : Option (List ℕ)) → V → Disk → Result (Unit {0}) × V × Disk
  unfolding find_and_restore
  urm path place v d =
      if not ((C.vfs.tree v).iget C.undel_dir_ino)
      then (err eio, v, d)
      else if not C.env.journal
      then (err eio, v, d)
      else find_and_restore path place v d

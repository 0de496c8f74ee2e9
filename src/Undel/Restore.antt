-- ===== src/Undel/Restore.antt =====
-- ext3u/undel.c, `ext3u_restore_inode`, and ext3u/namei.c, `ext3u_lookup`: what `ext3u_urm` does before a
-- file gets its old inode and its place again. The inode on disk is the kernel's structure, so it is
-- taken by its fields; on a little-endian machine `le16_to_cpu` and `le32_to_cpu` change nothing.
pub mod Lookup
use Prim.Native.Nat.{bit_or}
use mathlib.Core.List.{reverse}
use ext3u.Common.{
  ℕ, ◌+◌, ◌-◌, ◌*◌, ◌%◌, ◌^◌, Bool, true, false, ◌&&◌, not, ◌==◌, ltb, leb, if◌then◌else◌, Option,
  none, some, List, [], ◌∷◌, Result, ok, err, hangs, eio, enoent, eperm,
}

-- `struct ext3_inode`.
pub record RawInode : Type 0 where
  pub i_mode : ℕ
  pub i_uid_low : ℕ
  pub i_gid_low : ℕ
  pub i_uid_high : ℕ
  pub i_gid_high : ℕ
  pub i_size : ℕ
  pub i_size_high : ℕ
  pub i_atime : ℕ
  pub i_ctime : ℕ
  pub i_mtime : ℕ
  pub i_dtime : ℕ
  pub i_blocks : ℕ
  pub i_flags : ℕ
  pub i_file_acl : ℕ
  pub i_generation : ℕ
  pub i_block : List ℕ
  pub i_extra_isize : ℕ
  pub has_xattr_magic : Bool

-- The inode in memory, the fields of `struct ext3_inode_info` among them. `xattr_state` is the flag
-- `EXT3_STATE_XATTR` of `i_state`, which is 0 otherwise.
pub record Inode : Type 0 where
  pub mode : ℕ
  pub uid : ℕ
  pub gid : ℕ
  pub nlink : ℕ
  pub size : ℕ
  pub disksize : ℕ
  pub atime : ℕ
  pub ctime : ℕ
  pub mtime : ℕ
  pub dtime : ℕ
  pub blocks : ℕ
  pub flags : ℕ
  pub file_acl : ℕ
  pub generation : ℕ
  pub i_data : List ℕ
  pub extra_isize : ℕ
  pub xattr_state : Bool

-- What `ext3u_restore_inode` knows of the file system and of the kernel's structure.
pub record InodeSizes : Type 0 where
  pub no_uid32 : Bool
  pub first_ino : ℕ
  pub inode_size : ℕ
  pub good_old_inode_size : ℕ
  pub sizeof_ext3_inode : ℕ

-- The extra part of a large inode.
pub restore_extra : InodeSizes → (ino : ℕ) → RawInode → Inode → Result Inode
restore_extra S ino raw inode =
    if leb (S.first_ino + 1) ino && ltb S.good_old_inode_size S.inode_size
    then if ltb S.inode_size (S.good_old_inode_size + raw.i_extra_isize)
      then err eio
      else if raw.i_extra_isize == 0
      then ok (record inode {
        extra_isize = (S.sizeof_ext3_inode + 2 ^ 16 - S.good_old_inode_size) % 2 ^ 16;
      })
      else ok (record inode { extra_isize = raw.i_extra_isize; xattr_state = raw.has_xattr_magic })
    else ok (record inode { extra_isize = 0 })

with_high : ℕ → ℕ → ℕ
with_high low high = bit_or low (high * 2 ^ 16)

-- `ext3u_restore_inode`, for a file system without fragments.
pub restore_inode : InodeSizes → (ino : ℕ) → RawInode → Result Inode
unfolding restore_extra with_high
restore_inode S ino raw =
    let size = bit_or raw.i_size (raw.i_size_high * 2 ^ 32) in
    restore_extra S ino raw (record {
      mode = raw.i_mode;
      uid = if S.no_uid32 then raw.i_uid_low else with_high raw.i_uid_low raw.i_uid_high;
      gid = if S.no_uid32 then raw.i_gid_low else with_high raw.i_gid_low raw.i_gid_high;
      nlink = 1;
      size = size;
      disksize = size;
      atime = raw.i_atime;
      ctime = raw.i_ctime;
      mtime = raw.i_mtime;
      dtime = raw.i_dtime;
      blocks = raw.i_blocks;
      flags = raw.i_flags;
      file_acl = raw.i_file_acl;
      generation = raw.i_generation;
      i_data = raw.i_block;
      extra_isize = 0;
      xattr_state = false;
    })

-- The directories of the file system, as `ext3_iget`, `ext3_permission` for the two masks and
-- `ext3_find_entry` show them.
pub record Tree : Type 0 where
  pub root_ino : ℕ
  pub iget : ℕ → Bool
  pub may_exec : ℕ → Bool
  pub may_write : ℕ → Bool
  pub ext3_find_entry : ℕ → List ℕ → Option ℕ

-- The tokens that `strsep` cuts a path into at each slash; `token` holds the characters so far, the last
-- one first.
unfoldable pub tokens : (path token : List ℕ) → List (List ℕ)
tokens [] token = reverse token ∷ []
tokens (c ∷ path) token =
    let rest = tokens path [] in
    let more = tokens path (c ∷ token) in if c == b'/' then reverse token ∷ rest else more

-- The loop of `ext3u_lookup` from directory `ino` on: the directory that it ends in, and `create`.
unfoldable pub lookup_loop :
    Tree → (names : List (List ℕ)) (ino : ℕ) (create : Bool) → Result ℕ × Bool
lookup_loop T [] ino create = (ok ino, create)
lookup_loop T ([] ∷ names) ino create = lookup_loop T names ino create
lookup_loop T ((c ∷ name) ∷ names) ino create =
    let create' = if T.may_write ino then create else false in
    elim (T.iget ino) [
      | false ↦ (err enoent, create)
      | true ↦ elim (T.may_exec ino) [
        | false ↦ (err eperm, create)
        | true ↦ elim (T.ext3_find_entry ino (c ∷ name)) [
          | none ↦ (err enoent, create')
          | some ino' ↦ lookup_loop T names ino' create'
        ]
      ]
    ]

-- The checks of `ext3u_lookup` on the last directory.
unfoldable pub lookup_last : Tree → Result ℕ × Bool → Result (Unit {0}) × Bool
lookup_last T (ok ino, create) =
    if not (T.iget ino)
    then (err enoent, create)
    else if not (T.may_write ino)
    then (err eperm, create)
    else (ok tt, create)
lookup_last T (err e, create) = (err e, create)
lookup_last T (hangs, create) = (hangs, create)

-- `ext3u_lookup`: the result, and what `*create` is afterwards.
unfoldable pub lookup : Tree → (path : List ℕ) (create : Bool) → Result (Unit {0}) × Bool
unfolding lookup_loop tokens lookup_last
lookup T path create = lookup_last T (lookup_loop T (tokens path []) T.root_ino create)

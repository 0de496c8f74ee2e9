-- ===== src/Undel/Dispatch.antt =====
-- ext3u/ioctl.c, the three undelete requests from `ext3_ioctl` on: the guard of the feature, and the
-- structures that come from user space and go back to it; `copy_from_user` brings the whole structure. `ext3_ioctl`'s other requests are stock ext3.
pub mod Reports
use ext3u.Common.{
  ℕ, Bool, true, false, if◌then◌else◌, ◌==◌, Option, List, Memory, Result, ok, err, hangs,
  eopnotsupp,
}
use ext3u.Undel.Disk.{Disk}
use ext3u.Undel.Ioctl.{UstatsInfo, UlsInfo, InodeFields, do_ustats, do_uls}
use ext3u.Undel.Restore.{Tree}
use ext3u.Undel.Urm.{Setting, urm}

-- `struct ext3u_urm_info`; a null pointer for the directory is `none`.
pub record UrmInfo : Type 0 where
  pub u_path : List ℕ
  pub u_dpath : Option (List ℕ)
  pub u_errcode : ℕ

-- A request with the structure that it brings.
pub data Call : Type 0 where
  uls_call : UlsInfo → Call
  ustats_call : UstatsInfo → Call
  urm_call : UrmInfo → Call

-- What the handlers find besides the setting of `ext3u_urm`: the feature of the superblock, the
-- inode's fields, what stands on the stack, the rounds of the listing, how many bytes `copy_to_user` leaves, and what the
-- structure of the user is after a copy that leaves some, which may be any part of the new one over the old.
pub record Machine : Type 0 where
  pub incompat_undelete : Bool
  pub fields : InodeFields
  pub stack : Memory
  pub rounds : ℕ
  pub uncopied : ℕ
  pub partial : (before after : Call) → Call

module _ {V : Type 0} (C : Setting V) (K : Machine) where
  -- `ext3u_do_urm`: the error number without its sign.
  pub do_urm : UrmInfo → V → Disk → Result ℕ × UrmInfo × V × Disk
  do_urm info v d =
      let (r, v', d') = urm C info.u_path info.u_dpath v d in
      elim r [
        | ok x ↦ (ok 0, record info { u_errcode = 0 }, v', d')
        | err e ↦ (ok e, record info { u_errcode = e }, v', d')
        | hangs ↦ (hangs, info, v', d')
      ]

  -- The result of a handler: what `copy_to_user` returns, whatever the command returned.
  pub forwarded : Result ℕ → Result ℕ
  forwarded (ok e) = ok K.uncopied
  forwarded (err e) = ok K.uncopied
  forwarded hangs = hangs

  -- The structure in user space behind `copy_to_user`.
  pub handed_back : (before after : Call) → Call
  handed_back before after = if K.uncopied == 0 then after else K.partial before after

  -- `ext3u_ioctl_uls`, `ext3u_ioctl_ustats` and `ext3u_ioctl_urm`.
  pub handle : Call → V → Disk → Result ℕ × Call × V × Disk
  unfolding do_urm forwarded handed_back
  handle (uls_call info) v d =
      let (r, info') =
        do_uls C.layout K.fields C.env ((C.vfs.tree v).iget C.undel_dir_ino) C.fsuid K.stack d
          d.usb.s_block_size K.rounds info in
      (forwarded r, handed_back (uls_call info) (uls_call info'), v, d)
  handle (ustats_call info) v d = (
    ok K.uncopied,
    handed_back (ustats_call info)
        (ustats_call (do_ustats C.env ((C.vfs.tree v).iget C.undel_dir_ino) d info)),
    v,
    d,
  )
  handle (urm_call info) v d =
      let (r, info', v', d') = do_urm info v d in
      (forwarded r, handed_back (urm_call info) (urm_call info'), v', d')

  -- The three cases of `ext3_ioctl`; the error is its number without the sign.
  pub ext3_ioctl : Call → V → Disk → Result ℕ × Call × V × Disk
  unfolding handle
  ext3_ioctl call v d =
      if K.incompat_undelete then (err eopnotsupp, call, v, d) else handle call v d

-- ===== src/Utils/Recover.antt =====
-- ext3u-utils/utils/urm.c: `ext3u_urm_command`, and the main function behind the parsing of its options. A
-- message on the error output is a value; the memory that is freed and the descriptors that are closed
-- are not modelled.
pub mod Told
use ext3u.Common.{
  ℕ, zero, suc, Bool, true, false, ◌&&◌, not, ◌==◌, if◌then◌else◌, Option, none, some, List, [],
  ◌∷◌, eperm, enoent, enomem, eexist, enodata, eopnotsupp,
}
use ext3u.Undel.Dispatch.{UrmInfo}
use ext3u.Utils.Mounts.{search_mount_points}
use ext3u.Utils.Urm.{clean_path}

-- The messages of the command.
pub data Message : Type 0 where
  mount_not_opened : Message
  no_memory : Message
  no_undelete : Message
  ioctl_error : (errno : ℕ) → Message
  entry_not_found : Message
  kernel_memory : Message
  permission_denied : Message
  file_exists : Message
  no_directory : Message
  other_error : Message

-- How an ioctl ends: with the structure as the kernel leaves it, or with an error number in `errno`.
pub data Reply : Type 0 where
  replied : UrmInfo → Reply
  failed : (errno : ℕ) → Reply

-- What the command finds around it: whether the mount point can be opened, whether `malloc` gives memory for
-- the path and for the directory, and how the kernel answers, which changes its state.
pub record UrmWorld (S : Type 0) : Type 0 where
  pub opens : Bool
  pub malloc_path : Bool
  pub malloc_dpath : Bool
  pub ioctl : UrmInfo → S → Reply × S

-- The message for the kernel's error number, as it stands in `u_errcode` without its sign.
pub errcode_message : ℕ → Message
errcode_message e =
    if e == enoent
    then entry_not_found
    else if e == enomem
    then kernel_memory
    else if e == eperm
    then permission_denied
    else if e == eexist
    then file_exists
    else if e == enodata
    then no_directory
    else other_error

-- What the command makes of the answer: no message for `URM_OK`.
pub outcome : Reply → Option Message
unfolding errcode_message
outcome (failed errno) = if errno == eopnotsupp then some no_undelete else some (ioctl_error errno)
outcome (replied info) = if info.u_errcode == 0 then none else some (errcode_message info.u_errcode)

abbrev is_some : Option (List ℕ) → Bool
is_some none = false
is_some (some s) = true

-- How the main function ends: before the loop, with the mount points listed where there are several, or
-- with what each file was told. `undefined` stands for the use of a pointer that was never set.
pub data Ending : Type 0 where
  no_arguments : Ending
  no_mount_point : Ending
  several : List (List ℕ) → Ending
  recovered : List (Option (Option Message)) → Ending
  undefined : Ending

module _ {S : Type 0} (W : UrmWorld S) where
  -- `ext3u_urm_command`: the message with `URM_ERR`, or `none` for `URM_OK`.
  pub urm_command : (file_path : List ℕ) (dir_path : Option (List ℕ)) → S → Option Message × S
  unfolding outcome
  urm_command file_path dir_path s =
      if not W.opens
      then (some mount_not_opened, s)
      else if not W.malloc_path
      then (some no_memory, s)
      else if is_some dir_path && not W.malloc_dpath
      then (some no_memory, s)
      else let (reply, s') =
          W.ioctl (record { u_path = file_path; u_dpath = dir_path; u_errcode = 0 }) s in
        (outcome reply, s')

  -- The loop over the files: for each one the message of the command, or `none` of the outer option where the
  -- mount point is not in the path.
  pub recover_files :
      (mount_point : List ℕ) (dpath : Option (List ℕ))
      → List (List ℕ)
      → S
      → List (Option (Option Message)) × S
  unfolding urm_command
  recover_files mount_point dpath [] s = ([], s)
  recover_files mount_point dpath (file ∷ files) s = elim (clean_path mount_point file) [
    | none ↦ let (told, s') = recover_files mount_point dpath files s in (none ∷ told, s')
    | some file_name ↦
        let (message, s₁) = urm_command file_name dpath s in
        let (told, s') = recover_files mount_point dpath files s₁ in (some message ∷ told, s')
  ]

  -- Where there is one mount point. What `ext3u_clean_path` returns for the directory is not looked at.
  pub recover_on :
      (mount_point : List ℕ) (dir : Option (List ℕ)) (files : List (List ℕ)) → S → Ending × S
  unfolding recover_files
  recover_on mount_point none files s =
      let (told, s') = recover_files mount_point none files s in (recovered told, s')
  recover_on mount_point (some dir_path) files s = elim (clean_path mount_point dir_path) [
    | none ↦ (undefined, s)
    | some dpath ↦
        let (told, s') = recover_files mount_point (some dpath) files s in (recovered told, s')
  ]

  -- The main function: `mounts` is the file of mount points, `behind` what stands in memory behind the names that
  -- are found, `dir` is the argument of the option
  -- `-d`, and `files` the other arguments. No option sets `mount_point_inserted`.
  pub recover_main :
      (behind : ℕ → List ℕ) (mounts : Option (List ℕ)) (dir : Option (List ℕ))
      (files : List (List ℕ))
      → S
      → Ending × S
  unfolding recover_on
  recover_main behind mounts dir [] s = (no_arguments, s)
  recover_main behind mounts dir (file ∷ files) s = elim (search_mount_points behind mounts) [
    | none ↦ (undefined, s)
    | some [] ↦ (no_mount_point, s)
    | some (mount_point ∷ []) ↦ recover_on mount_point dir (file ∷ files) s
    | some (mount_point ∷ other ∷ more) ↦ (several (mount_point ∷ other ∷ more), s)
  ]

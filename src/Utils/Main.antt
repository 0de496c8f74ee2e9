-- ===== src/Utils/Main.antt =====
-- ext3u-utils/utils/ustats.c: `ext3u_ustats_command`; and the main functions of uls.c and ustats.c behind the
-- parsing of their options, as lists of what they do. `none` is an access through a null pointer.
pub mod Points
use ext3u.Common.{
  ℕ, Bool, true, false, not, ◌==◌, ltb, if◌then◌else◌, Option, none, some, List, [], ◌∷◌, ◌++◌,
  eopnotsupp,
}
use ext3u.Undel.Ioctl.{UstatsInfo}
use ext3u.Utils.Mounts.{search_mount_points, check_mount_point}

-- How the ioctl of ustats ends.
pub data StatsReply : Type 0 where
  replied : UstatsInfo → StatsReply
  failed : (errno : ℕ) → StatsReply

-- What the command ends with: the values that it prints, or a message.
pub data Stats : Type 0 where
  prints : UstatsInfo → Stats
  mount_not_opened : Stats
  no_undelete : Stats
  ioctl_error : (errno : ℕ) → Stats
  kernel_error : (errcode : ℕ) → Stats

-- `ext3u_ustats_command`.
pub ustats_command : (opens : Bool) → StatsReply → Stats
ustats_command opens reply = if not opens then mount_not_opened else elim reply [
  | failed errno ↦ if errno == eopnotsupp then no_undelete else ioctl_error errno
  | replied info ↦ if info.u_errcode == 0 then prints info else kernel_error info.u_errcode
]

-- What the main functions do for a mount point: its name and the list of its files, its values, the title
-- of the oldest files, the message that it is none, and a line between two of them.
pub data Action : Type 0 where
  title : (mount_point : List ℕ) → Action
  uls : (mount_point : List ℕ) (num_files : ℕ) → Action
  ustats : (mount_point : List ℕ) → Action
  next_files : Action
  not_correct : (argument : List ℕ) → Action
  newline : Action

-- How a main function ends: with the mount points listed, because the user has to choose one, with the
-- message that there is none, or after what it has done.
pub data Ending : Type 0 where
  lists : List (List ℕ) → Ending
  no_mount_points : Ending
  does : List Action → Ending

-- One after the other, with a line between them.
pub separated : (List ℕ → List Action) → List (List ℕ) → List Action
separated act [] = []
separated act (m ∷ []) = act m
separated act (m ∷ n ∷ ms) = act m ++ (newline ∷ separated act (n ∷ ms))

-- Without arguments: all mount points with the option `-a`, or the only one.
pub on_found : (List ℕ → List Action) → (all_partitions : Bool) → List (List ℕ) → Ending
unfolding separated
on_found act all_partitions [] = no_mount_points
on_found act all_partitions (m ∷ []) = does (act m)
on_found act all_partitions (m ∷ n ∷ ms) =
    if all_partitions then does (separated act (m ∷ n ∷ ms)) else lists (m ∷ n ∷ ms)

-- The loop over the arguments, each checked.
pub on_arguments :
    (List ℕ → List Action) → (file : Option (List ℕ)) → List (List ℕ) → Option (List Action)
on_arguments act file [] = some []
on_arguments act file (m ∷ []) = elim (check_mount_point file m) [
  | none ↦ none
  | some true ↦ some (act m)
  | some false ↦ some (not_correct m ∷ [])
]
on_arguments act file (m ∷ n ∷ ms) =
    let rest = on_arguments act file (n ∷ ms) in
    elim (check_mount_point file m) [
      | none ↦ none
      | some true ↦ elim rest [ none ↦ none | some more ↦ some (act m ++ (newline ∷ more)) ]
      | some false ↦ elim rest [ none ↦ none | some more ↦ some (not_correct m ∷ newline ∷ more) ]
    ]

-- What both main functions have in common; `file` is the file of mount points, and `behind` what
-- stands in memory behind the names that are found.
pub main_with :
    (found argued : List ℕ → List Action) (behind : ℕ → List ℕ) (file : Option (List ℕ))
    (all_partitions : Bool)
    → List (List ℕ)
    → Option Ending
unfolding on_found on_arguments
main_with found argued behind file all_partitions [] = elim (search_mount_points behind file) [
  | none ↦ none
  | some points ↦ some (on_found found all_partitions points)
]
main_with found argued behind file all_partitions (m ∷ ms) =
    elim (on_arguments argued file (m ∷ ms)) [ none ↦ none | some actions ↦ some (does actions) ]

-- The main function of uls.
pub uls_main :
    (behind : ℕ → List ℕ) (file : Option (List ℕ)) (all_partitions : Bool) (num_files : ℕ)
    (args : List (List ℕ))
    → Option Ending
unfolding main_with
uls_main behind file all_partitions num_files args =
    let act : List ℕ → List Action = λ m. title m ∷ uls m num_files ∷ [] in
    main_with act act behind file all_partitions args

-- The main function of ustats; the title of the oldest files is printed for found mount points only.
pub ustats_main :
    (behind : ℕ → List ℕ) (file : Option (List ℕ)) (all_partitions : Bool) (num_files : ℕ)
    (args : List (List ℕ))
    → Option Ending
unfolding main_with
ustats_main behind file all_partitions num_files args =
    main_with (λ m. ustats m ∷ (if ltb 0 num_files then next_files ∷ uls m num_files ∷ [] else []))
      (λ m. ustats m ∷ (if ltb 0 num_files then uls m num_files ∷ [] else [])) behind file
      all_partitions args

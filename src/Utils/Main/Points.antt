-- ===== src/Utils/Main/Points.antt =====
-- The mount points that uls and ustats work on.
use ext3u.Common.{true, false, Bool, if◌then◌else◌, ℕ, List, [], ◌∷◌, ◌++◌, map}
use ext3u.Utils.Mounts.Found.{begins_one}
use ext3u.Utils.Main.{Action, not_correct, newline, Ending, lists, no_mount_points, does}

-- What is done for an argument: the command where one of the mount points starts with it.
abbrev pub checked : (List ℕ → List Action) → (points : List (List ℕ)) → List ℕ → List Action
checked act points s = if begins_one s points then act s else not_correct s ∷ []

-- Lists of actions with a line between each two of them.
abbrev pub joined : List (List Action) → List Action
joined [] = []
joined (a ∷ []) = a
joined (a ∷ b ∷ more) = a ++ (newline ∷ joined (b ∷ more))

-- Without arguments: the message for no mount point, the only one, and of several all with the option `-a`
-- and otherwise their list.
abbrev pub without : (List ℕ → List Action) → Bool → List (List ℕ) → Ending
without act all_partitions [] = no_mount_points
without act all_partitions (m ∷ []) = does (act m)
without act true (m ∷ n ∷ ms) = does (joined (map act (m ∷ n ∷ ms)))
without act false (m ∷ n ∷ ms) = lists (m ∷ n ∷ ms)

-- The independent description: `names` are the names that the search gives and `points` the mount points.
abbrev pub expected :
    (on_name on_argument : List ℕ → List Action)
    → Bool
    → (names points : List (List ℕ)) → (args : List (List ℕ)) → Ending
expected on_name on_argument all_partitions names points [] = without on_name all_partitions names
expected on_name on_argument all_partitions names points (s ∷ args) =
    does (joined (map (checked on_argument points) (s ∷ args)))

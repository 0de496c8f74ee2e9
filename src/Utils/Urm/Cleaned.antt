-- ===== src/Utils/Urm/Cleaned.antt =====
-- The paths that `urm` sends to the kernel.
use ext3u.Common.{ℕ, ◌≡◌, refl, true, false, eq→==, some, List, [], ◌∷◌, ◌++◌, length}
use ext3u.Utils.Mounts.{starts_with}
use ext3u.Utils.Mounts.Found.{starts_with-append, contains-start}
use ext3u.Utils.Urm.{drop_prefix, clean_path}

drop_prefix-append : (s t : List ℕ) → drop_prefix (length s) (s ++ t) ≡ t
unfolding drop_prefix
drop_prefix-append [] t = refl
drop_prefix-append (c ∷ s) t = drop_prefix-append s t

-- A string is not the start of a shorter one.
starts_with-longer : (s : List ℕ) (c : ℕ) (t : List ℕ) → starts_with (s ++ (c ∷ t)) s ≡ false
unfolding starts_with
starts_with-longer [] c t = refl
starts_with-longer (d ∷ s) c t = rw (eq→== d d refl) (starts_with-longer s c t)

starts_with_self : (s : List ℕ) → starts_with (s ++ []) s ≡ true
unfolding starts_with
starts_with_self [] = refl
starts_with_self (d ∷ s) = rw (eq→== d d refl) (starts_with_self s)

-- The path below a mount point; the mount point itself is the root.
abbrev pub below : List ℕ → List ℕ
below [] = b'/' ∷ []
below (c ∷ s) = c ∷ s

-- A path that is the mount point with a string behind it is cleaned to that string, and the mount point
-- alone to the root: what `uls` prints behind a mount point is what `urm` asks the kernel for.
pub clean_path-append :
    (mnt_point path : List ℕ) → clean_path mnt_point (mnt_point ++ path) ≡ some (below path)
unfolding clean_path
clean_path-append m [] = rw (starts_with_self m, clean_path) refl
clean_path-append m (c ∷ s) =
    rw
      (
        starts_with-longer m c s,
        contains-start m (m ++ (c ∷ s)) (starts_with-append m (c ∷ s)),
        drop_prefix-append m (c ∷ s),
        clean_path,
      )
      refl

-- ===== src/Utils/Urm.antt =====
-- ext3u-utils/utils/urm.c, `ext3u_clean_path`, where there is memory.
pub mod Cleaned
use ext3u.Common.{
  ℕ, zero, suc, Bool, true, false, Option, none, some, List, [], ◌∷◌, length, if◌then◌else◌,
}
use ext3u.Utils.Mounts.{starts_with, contains}

-- `s + n`; past the NUL nothing is known, and the code does not go there where `strstr` has found the mount
-- point.
pub drop_prefix : ℕ → List ℕ → List ℕ
drop_prefix zero s = s
drop_prefix (suc n) [] = []
drop_prefix (suc n) (c ∷ s) = drop_prefix n s

-- `ext3u_clean_path`: the path without the mount point, `none` for `URM_ERR`. A path that the mount point
-- starts with is the root. The mount point is looked for anywhere, and its length is cut from the start.
pub clean_path : (mnt_point path : List ℕ) → Option (List ℕ)
unfolding drop_prefix
clean_path mnt_point path =
    if starts_with path mnt_point
    then some (b'/' ∷ [])
    else if contains mnt_point path
    then some (drop_prefix (length mnt_point) path)
    else none

-- ===== src/Utils/Mounts/Found.antt =====
-- The mount points that are found, and those that are accepted.
use ext3u.Common.{
  ℕ, ◌+◌, ◌<◌, ◌≡◌, refl, ◌≢◌, Bool, true, false, ◌||◌, eq→==, List, [], ◌∷◌, ◌++◌, length,
}
use ext3u.Utils.Mounts.{buf_size, newline, ext3u_name, starts_with, contains}

-- A line of the file for a mounted ext3u: device, mount point, type, and the rest.
pub record Mount : Type 0 where
  pub device : List ℕ
  pub mount_point : List ℕ
  pub rest : List ℕ

abbrev pub line_of : Mount → List ℕ
line_of m = m.device ++ (b' ' ∷ (m.mount_point ++ (b' ' ∷ (ext3u_name ++ (b' ' ∷ m.rest)))))

-- A field of a line: no space in it.
abbrev pub NoSpace : List ℕ → Type 0
NoSpace [] = Unit
NoSpace (c ∷ s) = (c ≢ b' ') × NoSpace s

-- A line: no newline in it.
abbrev pub NoNewline : List ℕ → Type 0
NoNewline [] = Unit
NoNewline (c ∷ s) = (c ≢ newline) × NoNewline s

-- Lines that the buffer of `fgets` has room for, with no space in the device and the mount point.
abbrev pub AllPlain : List Mount → Type 0
AllPlain [] = Unit
AllPlain (m ∷ ms) =
    NoSpace m.device
    × NoSpace m.mount_point
    × NoNewline (line_of m)
    × (length (line_of m) + 1 < buf_size)
    × AllPlain ms

-- The file, each line with its newline.
abbrev pub file_of : List Mount → List ℕ
file_of [] = []
file_of (m ∷ ms) = line_of m ++ (newline ∷ file_of ms)

-- The mount points, each with what stands in memory behind it.
abbrev pub tailed : (behind : ℕ → List ℕ) (cnt : ℕ) → List (List ℕ) → List (List ℕ)
tailed behind cnt [] = []
tailed behind cnt (p ∷ points) = (p ++ behind cnt) ∷ tailed behind (cnt + 1) points

pub starts_with-append : (s t : List ℕ) → starts_with s (s ++ t) ≡ true
unfolding starts_with
starts_with-append [] t = refl
starts_with-append (c ∷ s) t = rw (eq→== c c refl) (starts_with-append s t)

pub contains-start : (s t : List ℕ) → starts_with s t ≡ true → contains s t ≡ true
unfolding contains
contains-start s [] e = e
contains-start s (d ∷ t) e = rw e refl

-- What stands behind the device, and behind the mount point.
abbrev behind_device : Mount → List ℕ
behind_device m = m.mount_point ++ (b' ' ∷ (ext3u_name ++ (b' ' ∷ m.rest)))

abbrev behind_point : Mount → List ℕ
behind_point m = ext3u_name ++ (b' ' ∷ m.rest)

-- A line with its newline is a line too, with the newline in its rest.
abbrev terminated : Mount → Mount
terminated m = record m { rest = m.rest ++ (newline ∷ []) }

-- Whether one of the mount points starts with the string.
abbrev pub begins_one : List ℕ → List (List ℕ) → Bool
begins_one s [] = false
begins_one s (point ∷ points) = starts_with s point || begins_one s points

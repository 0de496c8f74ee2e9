-- ===== src/Utils/Mounts.antt =====
-- ext3u-utils/utils/ucommon.c, the mount points of the file system, as /proc/mounts lists them. The file is the
-- list of its characters, with no NUL among them; `none` among the results is an access through a null pointer.
pub mod Found
use ext3u.Common.{
  ℕ, zero, suc, ◌+◌, ◌-◌, Bool, true, false, ◌&&◌, ◌||◌, ◌==◌, if◌then◌else◌, Option, none, some,
  List, [], ◌∷◌, ◌++◌,
}

-- `BUF_SIZE`, and the newline.
abbrev pub buf_size : ℕ
buf_size = 1024

abbrev pub newline : ℕ
newline = 10

-- A character put before the first of the strings.
pub push : ℕ → List (List ℕ) → List (List ℕ)
push c [] = (c ∷ []) ∷ []
push c (s ∷ strings) = (c ∷ s) ∷ strings

-- What the calls of `fgets` read one after the other: a string ends behind a newline or when the buffer is full.
-- `left` is how many characters the string that is being read may still get.
unfoldable pub fgets_all : (left : ℕ) → List ℕ → List (List ℕ)
unfolding push
fgets_all left [] = []
fgets_all left (c ∷ file) =
    let ends = (c == newline) || (left == 1) in
    let more = fgets_all (if ends then buf_size - 1 else left - 1) file in
    if ends then (c ∷ []) ∷ more else push c more

-- `EXT3u_NAME`.
abbrev pub ext3u_name : List ℕ
ext3u_name = b'e' ∷ b'x' ∷ b't' ∷ b'3' ∷ b'u' ∷ []

-- `strncmp(s, t, strlen(s))` is zero.
unfoldable pub starts_with : (s t : List ℕ) → Bool
starts_with [] t = true
starts_with (c ∷ s) [] = false
starts_with (c ∷ s) (d ∷ t) = (c == d) && starts_with s t

-- `strstr(t, s)` is not null.
pub contains : (s t : List ℕ) → Bool
unfolding starts_with
contains s [] = starts_with s []
contains s (d ∷ t) = starts_with s (d ∷ t) || contains s t

-- The token before the first space, and what stands behind it.
pub cut : List ℕ → List ℕ × Option (List ℕ)
cut [] = ([], none)
cut (c ∷ s) =
    let (token, rest) = cut s in
    elim (c == b' ') [ true ↦ ([], some s) | false ↦ (c ∷ token, rest) ]

-- `strsep(&running, " ")`.
pub strsep : Option (List ℕ) → Option (List ℕ) × Option (List ℕ)
unfolding cut
strsep none = (none, none)
strsep (some s) = let (token, rest) = cut s in (some token, rest)

-- The second token of a line, and what stands behind it: two rounds of the loop, since the first token is
-- never null.
pub second_token : List ℕ → Option (List ℕ) × Option (List ℕ)
unfolding strsep
second_token line = strsep (strsep (some line)).1

-- One line of `ext3u_check_mount_point`: whether it is the mount point's.
pub check_line : (mnt_point line : List ℕ) → Option Bool
unfolding second_token contains
check_line mnt_point line =
    let (token, running) = second_token line in
    if contains ext3u_name line
    then elim token [
      | none ↦ none
      | some name ↦
          if starts_with mnt_point name
          then elim (strsep running).0 [
            | none ↦ none
            | some type ↦ some (starts_with type ext3u_name)
          ]
          else some false
    ]
    else some false

-- `ext3u_check_mount_point` on what is read, true for 0 and false for -1.
pub check_lines : (mnt_point : List ℕ) → List (List ℕ) → Option Bool
unfolding check_line
check_lines mnt_point [] = some false
check_lines mnt_point (line ∷ lines) =
    let rest = check_lines mnt_point lines in
    elim (check_line mnt_point line) [ none ↦ none | some true ↦ some true | some false ↦ rest ]

-- The file is `none` when it cannot be opened.
pub check_mount_point : Option (List ℕ) → (mnt_point : List ℕ) → Option Bool
unfolding check_lines fgets_all
check_mount_point none mnt_point = some false
check_mount_point (some file) mnt_point = check_lines mnt_point (fgets_all (buf_size - 1) file)

-- The loop of `ext3u_search_mount_points`, where there is memory. `strncpy` copies a token without a NUL, so the
-- string that is found goes on with what stands behind it in memory up to the next NUL: `behind n` for the string
-- number `n`.
pub search_lines : (behind : ℕ → List ℕ) (cnt : ℕ) → List (List ℕ) → Option (List (List ℕ))
unfolding second_token contains
search_lines behind cnt [] = some []
search_lines behind cnt (line ∷ lines) =
    let rest = search_lines behind (if contains ext3u_name line then cnt + 1 else cnt) lines in
    elim (contains ext3u_name line) [
      | false ↦ rest
      | true ↦ elim (second_token line).0 [
        | none ↦ none
        | some token ↦ elim rest [
          | none ↦ none
          | some tokens ↦ some ((token ++ behind cnt) ∷ tokens)
        ]
      ]
    ]

-- `ext3u_search_mount_points`: the mount points, none of them for the null pointer that it returns when
-- the file cannot be opened.
pub search_mount_points : (behind : ℕ → List ℕ) → Option (List ℕ) → Option (List (List ℕ))
unfolding search_lines fgets_all
search_mount_points behind none = some []
search_mount_points behind (some file) = search_lines behind 0 (fgets_all (buf_size - 1) file)

-- ===== src/Undel/Path.antt =====
-- ext3u/undel.c, the full path of a dentry and the file name at its end. A C string is the list of
-- its characters before the NUL.
pub mod Join
use mathlib.Core.List.{reverse}
use ext3u.Common.{
  ℕ, zero, suc, ◌+◌, ◌-◌, Bool, true, false, Option, none, some, List, [], ◌∷◌, ◌++◌, ◌==◌,
  if◌then◌else◌, length, take, Result, ok, err, enoent, enomem,
}

-- `PATH_MAX` of the kernel.
abbrev pub path_max : ℕ
path_max = 4096

-- A `struct dentry` as far as the code reads it: `d_name.name` and `d_parent`, which may be NULL.
pub data Dentry : Type 0 where
  null : Dentry
  dentry : (d_name : List ℕ) (d_parent : Dentry) → Dentry

-- `strcmp(entry.name, "/")` is zero.
abbrev pub is_root_name : List ℕ → Bool
is_root_name [] = false
is_root_name (c ∷ []) = c == b'/'
is_root_name (c ∷ d ∷ r) = false

-- `strncat(dst, src, n)`.
abbrev pub strncat : List ℕ → List ℕ → ℕ → List ℕ
strncat dst src n = dst ++ take n src

-- One round of the loop: the name is put in front of what stands in `tmp`.
pub prepend : (name tmp : List ℕ) → List ℕ
prepend name tmp =
    let buf = take path_max tmp in
    let tmp₁ : List ℕ = b'/' ∷ [] in
    let tmp₂ = strncat tmp₁ name (path_max + 1 - length tmp₁) in
    strncat tmp₂ buf (path_max + 1 - length tmp₂)

-- The loop `while (strcmp(entry.name,"/"))`; a dentry without a parent ends it with `ENOENT`.
pub path_loop : Dentry → List ℕ → Option (List ℕ)
path_loop null tmp = none
path_loop (dentry name parent) tmp =
    let rest = path_loop parent (prepend name tmp) in
    if is_root_name name then some (take path_max tmp) else rest

-- `ext3u_get_full_path` of a dentry with this name and parent: the buffer and the length of the
-- name. `memory` says whether `kmalloc` returns a buffer.
unfoldable pub get_full_path : Bool → (name : List ℕ) (parent : Dentry) → Result (List ℕ × ℕ)
unfolding path_loop prepend
get_full_path memory name parent =
    if memory
    then elim (path_loop (dentry name parent) []) [
      | none ↦ err enoent
      | some buf ↦ ok (buf, length name)
    ]
    else err enomem

-- `ext3u_get_file_name`: the walk back over `d_path` to the last slash, over the reversed string;
-- `file` holds the characters passed. `none` is a walk past the start. The slash is overwritten, so
-- the directory is what stands before it, and the file name what stands behind it.
unfoldable pub file_name_loop : (back file : List ℕ) → Option (List ℕ × List ℕ)
file_name_loop [] file = none
file_name_loop (c ∷ back) file =
    let rest = file_name_loop back (c ∷ file) in
    if c == b'/' then some (reverse back, file) else rest

unfoldable pub get_file_name : List ℕ → Option (List ℕ × List ℕ)
unfolding file_name_loop
get_file_name d_path = file_name_loop (reverse d_path) []

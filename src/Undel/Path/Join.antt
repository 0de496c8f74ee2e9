-- ===== src/Undel/Path/Join.antt =====
-- What the path of a dentry is, and that the file name is found again in it.
use mathlib.Core.List.{reverse, reverse-append, append-nil, append_assoc, reverse-reverse}
use ext3u.Common.{
  ℕ, suc, ◌+◌, ◌-◌, ◌≤◌, ◌<◌, ◌≡◌, refl, sym, ap, ◌∙◌, true, false, some, List, [], ◌∷◌, ◌++◌,
  arith, ne→==, length, length-append, take, take_all, length-take, ok,
}
use ext3u.Undel.Skip.Rules.{NoSlash}
use ext3u.Undel.Path.{
  Dentry, dentry, is_root_name, prepend, path_loop, get_full_path, path_max, file_name_loop,
  get_file_name,
}

-- The names from the root down, each behind a slash; the root alone has the empty path.
pub data HasPath : Dentry → List ℕ → Type 0 where
  root :
      {name : List ℕ} {parent : Dentry} → is_root_name name ≡ true → HasPath (dentry name parent) []
  below :
      {name : List ℕ} {parent : Dentry} {p q : List ℕ}
      → is_root_name name ≡ false
      → HasPath parent p
      → q ≡ p ++ (b'/' ∷ name)
      → HasPath (dentry name parent) q

prepend-short :
    (name tmp : List ℕ)
    → 1 + length name + length tmp ≤ path_max
    → prepend name tmp ≡ (b'/' ∷ name) ++ tmp
unfolding prepend
prepend-short name tmp h =
    rw (take_all 4096 tmp (omega arith), take_all 4096 name (omega arith))
      (ap (λ t. b'/' ∷ (name ++ t)) (take_all (4097 - suc (length name)) tmp (omega arith)))

path_loop-HasPath :
    {d : Dentry} {p : List ℕ} (tmp : List ℕ)
    → HasPath d p
    → length p + length tmp ≤ path_max
    → path_loop d tmp ≡ some (p ++ tmp)
unfolding path_loop
path_loop-HasPath tmp (root e) h = rw e (ap some (take_all 4096 tmp (omega arith)))
path_loop-HasPath tmp (below {name} {p} e up shape) h =
    rw (e, shape, prepend-short name tmp (omega (arith, size, long)))
      (path_loop-HasPath ((b'/' ∷ name) ++ tmp) up
          (omega (arith, size, long, length-append (b'/' ∷ name) tmp))
        ∙ ap some (sym (append_assoc p (b'/' ∷ name) tmp)))
  where
    size : length (p ++ (b'/' ∷ name)) ≡ length p + suc (length name)
    size = length-append p (b'/' ∷ name)

    long : length (p ++ (b'/' ∷ name)) + length tmp ≤ path_max
    long = rw shape at h

NoSlash-append : (a b : List ℕ) → NoSlash a → NoSlash b → NoSlash (a ++ b)
NoSlash-append [] b h k = k
NoSlash-append (c ∷ a) b h k = (h.0, NoSlash-append a b h.1 k)

NoSlash-reverse : (a : List ℕ) → NoSlash a → NoSlash (reverse a)
NoSlash-reverse [] h = tt
NoSlash-reverse (c ∷ a) h =
    rw (reverse-append (c ∷ []) a)
      (NoSlash-append (reverse a) (c ∷ []) (NoSlash-reverse a h.1) (h.0, tt))

-- The walk back stops at the first slash that it meets.
file_name_loop-stops :
    (back r file : List ℕ)
    → NoSlash back
    → file_name_loop (back ++ (b'/' ∷ r)) file ≡ some (reverse r, reverse back ++ file)
unfolding file_name_loop
file_name_loop-stops [] r file h = refl
file_name_loop-stops (c ∷ back) r file h = rw (ne→== c b'/' h.0) (
    file_name_loop-stops back r (c ∷ file) h.1
    ∙ ap (λ t. some (reverse r, t))
        (sym (append_assoc (reverse back) (c ∷ []) file)
          ∙ ap (λ t. t ++ file) (sym (reverse-append (c ∷ []) back))))

-- The path of a file in a directory is split again into the directory's path and the name.
get_file_name-append :
    (dir name : List ℕ) → NoSlash name → get_file_name (dir ++ (b'/' ∷ name)) ≡ some (dir, name)
unfolding get_file_name
get_file_name-append dir name h =
    ap (λ t. file_name_loop t []) shape
    ∙ file_name_loop-stops (reverse name) (reverse dir) [] (NoSlash-reverse name h)
    ∙ ap some tidy
  where
    shape : reverse (dir ++ (b'/' ∷ name)) ≡ reverse name ++ (b'/' ∷ reverse dir)
    shape =
        reverse-append dir (b'/' ∷ name)
        ∙ ap (λ t. t ++ reverse dir) (reverse-append (b'/' ∷ []) name)
        ∙ append_assoc (reverse name) (b'/' ∷ []) (reverse dir)

    tidy :
        ◌≡◌ {A = List ℕ × List ℕ} (reverse (reverse dir), reverse (reverse name) ++ []) (dir, name)
    tidy = rw (reverse-reverse dir, reverse-reverse name, append-nil name)

-- The path that is saved for a file is its directory's path, a slash and its name, if that fits
-- `PATH_MAX`, memory is there and the name is not that of the root and has no slash; and it is
-- split again into these two parts.
pub get_full_path-get_file_name :
    {parent : Dentry} {dir : List ℕ} (name : List ℕ)
    → HasPath parent dir
    → is_root_name name ≡ false
    → NoSlash name
    → length dir + 1 + length name ≤ path_max
    → (get_full_path true name parent ≡ ok (dir ++ (b'/' ∷ name), length name))
      × (get_file_name (dir ++ (b'/' ∷ name)) ≡ some (dir, name))
unfolding get_full_path
get_full_path-get_file_name {parent} {dir} name up plain h fits =
    (rw found, get_file_name-append dir name h)
  where
    found : path_loop (dentry name parent) [] ≡ some (dir ++ (b'/' ∷ name))
    found =
        path_loop-HasPath [] (below plain up refl) (omega (arith, length-append dir (b'/' ∷ name)))
        ∙ ap some (append-nil (dir ++ (b'/' ∷ name)))

-- A name of at most 255 characters, put in front of a path so that a slash and both are longer
-- than `PATH_MAX`, makes a string of `PATH_MAX` + 1 characters, which with its NUL is one byte
-- longer than the buffer of the code.
pub prepend-overflow :
    (name tmp : List ℕ)
    → length name ≤ 255
    → path_max < 1 + length name + length tmp
    → length (prepend name tmp) ≡ path_max + 1
unfolding prepend
prepend-overflow name tmp short long = rw (take_all 4096 name (omega arith)) (
    omega (
      arith,
      length-append name (take (4097 - suc (length name)) (take 4096 tmp)),
      length-take (4097 - suc (length name)) (take 4096 tmp),
      length-take 4096 tmp,
    ))

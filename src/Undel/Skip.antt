-- ===== src/Undel/Skip.antt =====
-- ext3u/undel.c, the rules by which a deleted file is not kept. A C string is the list of its
-- characters before the NUL. A read before the start of a string is `none`.
pub mod Rules
use mathlib.Core.List.{reverse}
use ext3u.Common.{
  ℕ, zero, suc, Bool, true, false, Option, none, some, List, [], ◌∷◌, ◌==◌, if◌then◌else◌,
}

-- `EXT3u_SKIP_FILE`.
abbrev pub skip_file_code : ℕ
skip_file_code = 2

-- `struct ext3u_skip_entry`: `sk_dir` may be NULL, and `sk_ext_len` entries of `sk_ext` are used.
pub record SkipEntry : Type 0 where
  pub sk_ext_len : ℕ
  pub sk_dir : Option (List ℕ)
  pub sk_ext : List (List ℕ)

-- What `ss` points to after `while(*ss != '\0' && *s++ == *ss++);`: both pointers have moved past
-- the characters that differ. The NUL at the end of `s` differs from each character of `dir`.
unfoldable pub dir_rest : List ℕ → List ℕ → List ℕ
dir_rest s [] = []
dir_rest [] (d ∷ ss) = ss
dir_rest (c ∷ s) (d ∷ ss) = if c == d then dir_rest s ss else ss

-- `if (sk->sk_dir)`, and the test of `*ss` after the loop.
unfoldable pub dir_matches : Option (List ℕ) → List ℕ → Bool
unfolding dir_rest
dir_matches none path = true
dir_matches (some dir) path = elim (dir_rest path dir) [ [] ↦ true | c ∷ r ↦ false ]

-- The backward loop over `s` and `ss`, both given from their ends, and the test `j == len`.
unfoldable pub ext_matches : List ℕ → List ℕ → Option Bool
ext_matches [] s = some true
ext_matches (e ∷ ss) [] = none
ext_matches (e ∷ ss) (c ∷ s) = if c == e then ext_matches ss s else some false

-- `!strcmp(ss, "*")`.
unfoldable pub is_star : List ℕ → Bool
is_star [] = false
is_star (c ∷ []) = c == b'*'
is_star (c ∷ d ∷ r) = false

-- The loop over the extensions; `none` also for a read past the array.
unfoldable pub check_extensions : ℕ → List (List ℕ) → List ℕ → Option ℕ
check_extensions zero ext path = some 0
check_extensions (suc i) [] path = none
check_extensions (suc i) (ss ∷ ext) path =
    let rest = check_extensions i ext path in
    if is_star ss then some skip_file_code else elim (ext_matches (reverse ss) (reverse path)) [
      | none ↦ none
      | some true ↦ some skip_file_code
      | some false ↦ rest
    ]

-- `ext3u_check_skip_entry`.
unfoldable pub check_skip_entry : SkipEntry → List ℕ → Option ℕ
check_skip_entry sk path =
    if dir_matches sk.sk_dir path then check_extensions sk.sk_ext_len sk.sk_ext path else some 0

-- "/temp/" and its extensions `{"*", ""}`, of which the first counts.
abbrev pub temp_dir : List ℕ
temp_dir = b'/' ∷ b't' ∷ b'e' ∷ b'm' ∷ b'p' ∷ b'/' ∷ []

abbrev pub temp_rule : SkipEntry
temp_rule = record { sk_ext_len = 1; sk_dir = some temp_dir; sk_ext = (b'*' ∷ []) ∷ [] ∷ [] }

-- "~", ".swp", ".o" and ".noundel", in every directory.
abbrev pub dot_swp : List ℕ
dot_swp = b'.' ∷ b's' ∷ b'w' ∷ b'p' ∷ []

abbrev pub dot_o : List ℕ
dot_o = b'.' ∷ b'o' ∷ []

abbrev pub dot_noundel : List ℕ
dot_noundel = b'.' ∷ b'n' ∷ b'o' ∷ b'u' ∷ b'n' ∷ b'd' ∷ b'e' ∷ b'l' ∷ []

abbrev pub suffix_rule : SkipEntry
suffix_rule = record {
  sk_ext_len = 4;
  sk_dir = some [];
  sk_ext = (b'~' ∷ []) ∷ dot_swp ∷ dot_o ∷ dot_noundel ∷ [];
}

-- `ext3u_skip_file`: the first rule with a nonzero answer decides.
unfoldable pub skip_file : List ℕ → Option ℕ
skip_file path = elim (check_skip_entry temp_rule path) [
  | none ↦ none
  | some zero ↦ check_skip_entry suffix_rule path
  | some (suc err) ↦ some (suc err)
]

-- `ext3u_skip`.
pub skip : List ℕ → Option ℕ
skip name = skip_file name

-- ===== src/Undel/Skip/Rules.antt =====
-- Which paths the skip rules of ext3u/undel.c match.
use mathlib.Core.Bool.{false≢true}
use mathlib.Core.List.{reverse, reverse-append, reverse-reverse}
use ext3u.Common.{
  ℕ, ◌≡◌, refl, ap, sym, ◌∙◌, ◌≢◌, ◌↔◌, ◌⊎◌, inl, inr, Bool, true, false, some, List, [], ◌∷◌, ◌++◌,
  arith, ◌==◌, if◌then◌else◌, Bool-cases, some_inj, ◌||◌, eq→==, ne→==,
}
use ext3u.Undel.Skip.{
  dir_rest, dir_matches, ext_matches, is_star, check_skip_entry, check_extensions, temp_rule,
  suffix_rule, skip_file, skip_file_code, dot_swp, dot_o, dot_noundel, temp_dir,
}

-- The string begins, or ends, with another one.
append-ne-nil : (dir : List ℕ) (d : ℕ) → dir ++ (d ∷ []) ≢ []
append-ne-nil [] d h = cc
append-ne-nil (e ∷ dir) d h = cc

abbrev pub StartsWith : List ℕ → List ℕ → Type 0
StartsWith pre path = (rest : List ℕ) × (path ≡ pre ++ rest)

abbrev pub EndsWith : List ℕ → List ℕ → Type 0
EndsWith ext path = (stem : List ℕ) × (path ≡ stem ++ ext)

-- A directory matches when the path begins with all of its characters but the last one: the loop
-- has moved past the character that differs before it stops.
dir_rest-short :
    (dir : List ℕ) (d : ℕ) (path : List ℕ)
    → dir_rest path (dir ++ (d ∷ [])) ≡ []
    → StartsWith dir path
unfolding dir_rest
dir_rest-short [] d path h = (path, refl)
dir_rest-short (e ∷ dir) d [] h = absurd (append-ne-nil dir d h)
dir_rest-short (e ∷ dir) d (c ∷ path) h = elim (Bool-cases (c == e)) [
  | inl same ↦
      let (rest, eq) = dir_rest-short dir d path (rw same at h) in (rest, ground (arith, eq, same))
  | inr other ↦ absurd (append-ne-nil dir d (rw other at h))
]

short-dir_rest :
    (dir : List ℕ) (d : ℕ) (rest : List ℕ) → dir_rest (dir ++ rest) (dir ++ (d ∷ [])) ≡ []
unfolding dir_rest
short-dir_rest [] d [] = refl
short-dir_rest [] d (c ∷ rest) = elim (Bool-cases (c == d)) [
  | inl same ↦ rw same
  | inr other ↦ rw other
]
short-dir_rest (e ∷ dir) d rest = rw (eq→== e e refl) (short-dir_rest dir d rest)

ext_matches-StartsWith :
    (ext path : List ℕ) → ext_matches ext path ≡ some true → StartsWith ext path
unfolding ext_matches
ext_matches-StartsWith [] path h = (path, refl)
ext_matches-StartsWith (e ∷ ext) [] h = cc
ext_matches-StartsWith (e ∷ ext) (c ∷ path) h = elim (Bool-cases (c == e)) [
  | inl same ↦
      let (rest, eq) = ext_matches-StartsWith ext path (rw same at h) in
      (rest, ground (arith, eq, same))
  | inr other ↦ let h' : some false ≡ some true = rw other at h in cc
]

StartsWith-ext_matches : (ext rest : List ℕ) → ext_matches ext (ext ++ rest) ≡ some true
unfolding ext_matches
StartsWith-ext_matches [] rest = refl
StartsWith-ext_matches (e ∷ ext) rest = rw (eq→== e e refl) (StartsWith-ext_matches ext rest)

-- No slash in it.
abbrev pub NoSlash : List ℕ → Type 0
NoSlash [] = Unit
NoSlash (c ∷ s) = (c ≢ b'/') × NoSlash s

-- A walk back over a path that begins with a slash stays inside it.
ext_matches-inside :
    (ext path : List ℕ)
    → NoSlash ext
    → (b : Bool) × (ext_matches ext (path ++ (b'/' ∷ [])) ≡ some b)
unfolding ext_matches
ext_matches-inside [] path h = (true, refl)
ext_matches-inside (e ∷ ext) [] h = (false, rw (ne→== b'/' e (λ q. h.0 (sym q))))
ext_matches-inside (e ∷ ext) (c ∷ path) h = elim (Bool-cases (c == e)) [
  | inl same ↦ let (b, eq) = ext_matches-inside ext path h.1 in (b, rw same eq)
  | inr other ↦ (false, rw other)
]

-- The backward walk decides whether an absolute path ends with the extension.
pub ext_decides :
    (ext p : List ℕ)
    → NoSlash (reverse ext)
    → (b : Bool) × (ext_matches (reverse ext) (reverse (b'/' ∷ p)) ≡ some b)
      × ((b ≡ true) ↔ EndsWith ext (b'/' ∷ p))
ext_decides ext p h = (found.0, at_path found.1, (forward, backward))
  where
    back : reverse (b'/' ∷ p) ≡ reverse p ++ (b'/' ∷ [])
    back = reverse-append (b'/' ∷ []) p

    found : (b : Bool) × (ext_matches (reverse ext) (reverse p ++ (b'/' ∷ [])) ≡ some b)
    found = ext_matches-inside (reverse ext) (reverse p) h

    at_path :
        {b : Bool}
        → ext_matches (reverse ext) (reverse p ++ (b'/' ∷ [])) ≡ some b
        → ext_matches (reverse ext) (reverse (b'/' ∷ p)) ≡ some b
    at_path e = rw back e

    forward : found.0 ≡ true → EndsWith ext (b'/' ∷ p)
    forward t =
        let (rest, eq) =
          ext_matches-StartsWith (reverse ext) (reverse (b'/' ∷ p))
            (at_path (found.1 ∙ ap some t)) in
        (
          reverse rest,
          sym (reverse-reverse (b'/' ∷ p))
              ∙ ap reverse eq
              ∙ reverse-append (reverse ext) rest
              ∙ ap (λ e. reverse rest ++ e) (reverse-reverse ext),
        )

    backward : EndsWith ext (b'/' ∷ p) → found.0 ≡ true
    backward (stem, eq) =
        let shape : reverse (b'/' ∷ p) ≡ reverse ext ++ reverse stem =
          ap reverse eq ∙ reverse-append stem ext in
        let hit : ext_matches (reverse ext) (reverse (b'/' ∷ p)) ≡ some true =
          rw shape (StartsWith-ext_matches (reverse ext) (reverse stem)) in
        some_inj (sym (at_path found.1) ∙ hit)

-- The first five characters of "/temp/".
abbrev pub temp_prefix : List ℕ
temp_prefix = b'/' ∷ b't' ∷ b'e' ∷ b'm' ∷ b'p' ∷ []

-- One of the four extensions ends the path.
pub data HasSuffix (path : List ℕ) : Type 0 where
  backup : EndsWith (b'~' ∷ []) path → HasSuffix path
  swap_file : EndsWith dot_swp path → HasSuffix path
  object_file : EndsWith dot_o path → HasSuffix path
  marked : EndsWith dot_noundel path → HasSuffix path

-- The paths that a rule takes out.
abbrev pub Skipped : List ℕ → Type 0
Skipped path = StartsWith temp_prefix path ⊎ HasSuffix path

temp_rule-result :
    (path : List ℕ)
    → (StartsWith temp_prefix path × (check_skip_entry temp_rule path ≡ some skip_file_code))
      ⊎ (¬ StartsWith temp_prefix path × (check_skip_entry temp_rule path ≡ some 0))
unfolding check_skip_entry check_extensions is_star dir_matches
temp_rule-result path = go (dir_rest path temp_dir) refl
  where
    go :
        (r : List ℕ)
        → dir_rest path temp_dir ≡ r
        → (StartsWith temp_prefix path × (check_skip_entry temp_rule path ≡ some skip_file_code))
          ⊎ (¬ StartsWith temp_prefix path × (check_skip_entry temp_rule path ≡ some 0))
    go [] e = inl (dir_rest-short temp_prefix b'/' path e, rw (e, dir_matches))
    go (c ∷ r) e = inr (
      λ (rest, eq).
          let e' : dir_rest path temp_dir ≡ [] = rw eq (short-dir_rest temp_prefix b'/' rest) in cc,
      rw (e, dir_matches),
    )

suffix_rule-result :
    (p : List ℕ) (b₁ b₂ b₃ b₄ : Bool)
    → ext_matches (reverse (b'~' ∷ [])) (reverse (b'/' ∷ p)) ≡ some b₁
    → ext_matches (reverse dot_swp) (reverse (b'/' ∷ p)) ≡ some b₂
    → ext_matches (reverse dot_o) (reverse (b'/' ∷ p)) ≡ some b₃
    → ext_matches (reverse dot_noundel) (reverse (b'/' ∷ p)) ≡ some b₄
    → check_skip_entry suffix_rule (b'/' ∷ p)
      ≡ some (if b₁ || b₂ || b₃ || b₄ then skip_file_code else 0)
unfolding check_skip_entry check_extensions dir_matches is_star
suffix_rule-result p b₁ b₂ b₃ b₄ e₁ e₂ e₃ e₄ = ground arith

-- The second rule answers exactly on the paths with one of the extensions.
suffix_rule-decides :
    (p : List ℕ)
    → ((check_skip_entry suffix_rule (b'/' ∷ p) ≡ some skip_file_code) × HasSuffix (b'/' ∷ p))
      ⊎ ((check_skip_entry suffix_rule (b'/' ∷ p) ≡ some 0) × (¬ HasSuffix (b'/' ∷ p)))
suffix_rule-decides p =
    go _ _ _ _ (suffix_rule-result p _ _ _ _ (tilde.1) (swp.1) (o.1) (noundel.1)) tilde.2 swp.2 o.2
      noundel.2
  where
    tilde :
        (b : Bool) × (ext_matches (reverse (b'~' ∷ [])) (reverse (b'/' ∷ p)) ≡ some b)
        × ((b ≡ true) ↔ EndsWith (b'~' ∷ []) (b'/' ∷ p))
    tilde = ext_decides (b'~' ∷ []) p (omega arith)

    swp :
        (b : Bool) × (ext_matches (reverse dot_swp) (reverse (b'/' ∷ p)) ≡ some b)
        × ((b ≡ true) ↔ EndsWith dot_swp (b'/' ∷ p))
    swp = ext_decides dot_swp p (omega arith)

    o :
        (b : Bool) × (ext_matches (reverse dot_o) (reverse (b'/' ∷ p)) ≡ some b)
        × ((b ≡ true) ↔ EndsWith dot_o (b'/' ∷ p))
    o = ext_decides dot_o p (omega arith)

    noundel :
        (b : Bool) × (ext_matches (reverse dot_noundel) (reverse (b'/' ∷ p)) ≡ some b)
        × ((b ≡ true) ↔ EndsWith dot_noundel (b'/' ∷ p))
    noundel = ext_decides dot_noundel p (omega arith)

    path : List ℕ
    path = b'/' ∷ p

    go :
        (b₁ b₂ b₃ b₄ : Bool)
        → check_skip_entry suffix_rule path
          ≡ some (if b₁ || b₂ || b₃ || b₄ then skip_file_code else 0)
        → ((b₁ ≡ true) ↔ EndsWith (b'~' ∷ []) path)
        → ((b₂ ≡ true) ↔ EndsWith dot_swp path)
        → ((b₃ ≡ true) ↔ EndsWith dot_o path)
        → ((b₄ ≡ true) ↔ EndsWith dot_noundel path)
        → ((check_skip_entry suffix_rule path ≡ some skip_file_code) × HasSuffix path)
          ⊎ ((check_skip_entry suffix_rule path ≡ some 0) × (¬ HasSuffix path))
    go true b₂ b₃ b₄ e t₁ t₂ t₃ t₄ = inl (e, backup (t₁.0 refl))
    go false true b₃ b₄ e t₁ t₂ t₃ t₄ = inl (e, swap_file (t₂.0 refl))
    go false false true b₄ e t₁ t₂ t₃ t₄ = inl (e, object_file (t₃.0 refl))
    go false false false true e t₁ t₂ t₃ t₄ = inl (e, marked (t₄.0 refl))
    go false false false false e t₁ t₂ t₃ t₄ = inr (
      e,
      elim [
        | backup h ↦ false≢true (t₁.1 h)
        | swap_file h ↦ false≢true (t₂.1 h)
        | object_file h ↦ false≢true (t₃.1 h)
        | marked h ↦ false≢true (t₄.1 h)
      ],
    )

-- On an absolute path the rules never read outside the string. A file is skipped exactly when its
-- path begins with "/temp" or ends with "~", ".swp", ".o" or ".noundel", and the answer is then the code 2 of a
-- skipped file; otherwise it is 0. The comment in the code names other rules and another answer.
pub skip_file-absolute :
    (p : List ℕ)
    → ((skip_file (b'/' ∷ p) ≡ some skip_file_code) × Skipped (b'/' ∷ p))
      ⊎ ((skip_file (b'/' ∷ p) ≡ some 0) × (¬ Skipped (b'/' ∷ p)))
unfolding skip_file
skip_file-absolute p = elim (temp_rule-result (b'/' ∷ p)) [
  | inl (pre, e) ↦ inl (rw (e, skip_file), inl pre)
  | inr (no_pre, e) ↦ elim (suffix_rule-decides p) [
    | inl (e', suf) ↦ inl (rw (e, skip_file) e', inr suf)
    | inr (e', no_suf) ↦
        inr (rw (e, skip_file) e', elim [ inl pre ↦ no_pre pre | inr suf ↦ no_suf suf ])
  ]
]

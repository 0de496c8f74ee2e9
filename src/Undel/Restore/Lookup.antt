-- ===== src/Undel/Restore/Lookup.antt =====
-- The directories that `ext3u_lookup` passes through.
use mathlib.Core.Path.{subst}
use ext3u.Common.{
  ℕ, ◌≡◌, ◌↔◌, refl, sym, ap, ◌∙◌, inl, inr, Bool, true, false, ◌&&◌, if◌then◌else◌, Bool-cases,
  some, Option-cases, List, [], ◌∷◌, ok, Result-cases,
}
use ext3u.Undel.Restore.{Tree, tokens, lookup_loop, lookup_last, lookup}

-- The names lead from one directory to another, through directories that the user may pass; an empty
-- name, between two slashes, leads nowhere else.
pub data Leads (T : Tree) : List (List ℕ) → ℕ → ℕ → Type 0 where
  arrived : {ino : ℕ} → Leads T [] ino ino
  stays :
      {names : List (List ℕ)} {ino last : ℕ}
      → Leads T names ino last
      → Leads T ([] ∷ names) ino last
  enters :
      {c : ℕ} {name : List ℕ} {names : List (List ℕ)} {ino next last : ℕ}
      → T.iget ino ≡ true
      → T.may_exec ino ≡ true
      → T.ext3_find_entry ino (c ∷ name) ≡ some next
      → Leads T names next last
      → Leads T ((c ∷ name) ∷ names) ino last

-- Whether the user may write in each directory that a way enters another one from.
abbrev pub writable :
    {T : Tree} {names : List (List ℕ)} {ino last : ℕ} → Leads T names ino last → Bool
writable arrived = true
writable (stays way) = writable way
writable {T} {ino = ino} (enters r x e way) = T.may_write ino && writable way

and_if :
    (test create rest : Bool) → (if test then create else false) && rest ≡ create && (test && rest)
and_if true create rest = refl
and_if false true rest = refl
and_if false false rest = refl

lookup_loop-Leads :
    {T : Tree} {names : List (List ℕ)} {ino last : ℕ} (create : Bool) (way : Leads T names ino last)
    → lookup_loop T names ino create ≡ (ok last, create && writable way)
unfolding lookup_loop
lookup_loop-Leads true arrived = refl
lookup_loop-Leads false arrived = refl
lookup_loop-Leads create (stays way) = lookup_loop-Leads create way
lookup_loop-Leads {T} {ino = ino} {last} create (enters r x e way) =
    rw (r, x, e, lookup_loop)
      (lookup_loop-Leads (if T.may_write ino then create else false) way
        ∙ ap (λ b. (ok last, b)) (and_if (T.may_write ino) create (writable way)))

-- A way has been gone where the loop ends in a directory.
lookup_loop-way :
    (T : Tree) (names : List (List ℕ)) (ino last : ℕ) (create : Bool)
    → (lookup_loop T names ino create).0 ≡ ok last
    → Leads T names ino last
unfolding lookup_loop
lookup_loop-way T [] ino last create e =
    let same : ino ≡ last = cc (e) in subst (λ k. Leads T [] ino k) same arrived
lookup_loop-way T ([] ∷ names) ino last create e = stays (lookup_loop-way T names ino last create e)
lookup_loop-way T ((c ∷ name) ∷ names) ino last create e = elim (Bool-cases (T.iget ino)) [
  | inr i ↦ let f = (rw (i, lookup_loop) at e) in cc (f)
  | inl i ↦ elim (Bool-cases (T.may_exec ino)) [
    | inr x ↦ let f = (rw (i, x, lookup_loop) at e) in cc (f)
    | inl x ↦ elim (Option-cases (T.ext3_find_entry ino (c ∷ name))) [
      | inl n ↦ let f = (rw (i, x, n, lookup_loop) at e) in cc (f)
      | inr (next, n) ↦ enters i x n (
          lookup_loop-way T names next last (if T.may_write ino then create else false)
            (rw (i, x, n, lookup_loop) at e))
    ]
  ]
]

-- What a search of a path that succeeds has found: a directory that is there and in which the user may write,
-- at the end of a way that the user may pass. Missing directories may be made if that was allowed before
-- and each directory on the way is writable.
pub record Found (T : Tree) (path : List ℕ) (create may_create : Bool) : Type 0 where
  pub last : ℕ
  pub way : Leads T (tokens path []) T.root_ino last
  pub there : T.iget last ≡ true
  pub may_write : T.may_write last ≡ true
  pub right : may_create ≡ create && writable way

lookup-way :
    (T : Tree) (path : List ℕ) (create : Bool) (last : ℕ)
    (way : Leads T (tokens path []) T.root_ino last)
    → lookup T path create ≡ lookup_last T (ok last, create && writable way)
unfolding lookup
lookup-way T path create last way = ap (lookup_last T) (lookup_loop-Leads create way)

lookup_last-checks :
    (T : Tree) (last : ℕ) (right b : Bool)
    → lookup_last T (ok last, right) ≡ (ok tt, b)
    → (T.iget last ≡ true) × (T.may_write last ≡ true) × (b ≡ right)
unfolding lookup_last
lookup_last-checks T last right b e = elim (Bool-cases (T.iget last)) [
  | inr i ↦ let f = ap (λ w. w.0) (rw (i, lookup_last) at e) in cc (f)
  | inl i ↦ elim (Bool-cases (T.may_write last)) [
    | inr w ↦ let f = ap (λ w. w.0) (rw (i, w, lookup_last) at e) in cc (f)
    | inl w ↦ (i, w, sym (ap (λ w. w.1) (rw (i, w, lookup_last) at e)))
  ]
]

lookup-search :
    (T : Tree) (path : List ℕ) (create b : Bool)
    → lookup T path create ≡ (ok tt, b)
    → Found T path create b
unfolding lookup lookup_last
lookup-search T path create b e =
    elim (Result-cases (lookup_loop T (tokens path []) T.root_ino create).0) [
      | inl (last, f) ↦
          let way = lookup_loop-way T (tokens path []) T.root_ino last create f in
          let (i, w, r) =
            lookup_last-checks T last (create && writable way) b
              (sym (lookup-way T path create last way) ∙ e) in
          record { last = last; way = way; there = i; may_write = w; right = r }
      | inr (inl (k, f)) ↦ let g = ap (λ w. w.0) (rw (f, lookup_last) at e) in cc (g)
      | inr (inr f) ↦ let g = ap (λ w. w.0) (rw (f, lookup_last) at e) in cc (g)
    ]

-- `ext3u_lookup` succeeds exactly where the names of the path lead from the root, through directories that are
-- there and that the user may pass, to a directory that is there and in which the user may write; and then missing
-- directories may be made afterwards exactly if that was allowed before and each directory that the way leaves is
-- writable.
pub lookup-Found :
    (T : Tree) (path : List ℕ) (create b : Bool)
    → (lookup T path create ≡ (ok tt, b)) ↔ Found T path create b
unfolding lookup_last
lookup-Found T path create b = (
  lookup-search T path create b,
  λ F.
      lookup-way T path create F.last F.way
      ∙ rw (F.there, F.may_write, lookup_last) (ap (λ r. (ok tt, r)) (sym F.right)),
)

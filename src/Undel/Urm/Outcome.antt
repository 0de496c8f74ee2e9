-- ===== src/Undel/Urm/Outcome.antt =====
-- What a call of `ext3u_urm` leaves of the undelete list.
use mathlib.Core.Path.{subst}
use ext3u.Common.{
  ℕ, ◌≡◌, ◌⊎◌, refl, inl, inr, Bool-cases, Option-cases, Bool, true, false, not, if◌then◌else◌,
  Option, List, Memory, Result, Result-cases, ok, err, hangs, eio,
}
use ext3u.Undel.Disk.{Disk}
use ext3u.Undel.Super.{update_superblock, update_delete}
use ext3u.Undel.Links.{delete_entry}
use ext3u.Undel.Search.{get_entry}
use ext3u.Undel.Urm.{
  Setting, split_path, choose_directory, may_restore, forget, make_file, restore_at, restore_entry,
  find_and_restore, urm,
}

-- If the first part of a result is an error, it has a property together with the third part.
abbrev Keeps : {V : Type 0} → (ℕ → Disk → Type 0) → Result (Unit {0}) × V × Disk → Type 0
Keeps P (ok x, v, d') = Unit
Keeps P (err e, v, d') = P e d'
Keeps P (hangs, v, d') = Unit

-- The entry has been deleted, but the superblock could not be read again: the error is EIO, and the blocks are those that
-- the deletion left, with the superblock still as before.
pub record Lost {V : Type 0} (C : Setting V) (d : Disk) (de : Memory) (e : ℕ) (d' : Disk)
    : Type 0 where
  pub not_again : C.super_again ≡ false
  pub code : e ≡ eio
  pub deleted : d' ≡ (delete_entry C.env de d).1

-- What an error leaves, of the entry that was found.
abbrev Left : {V : Type 0} → Setting V → Disk → Memory → ℕ → Disk → Type 0
Left C d de e d' = (d' ≡ d) ⊎ Lost C d de e d'

-- What an error leaves, of a path.
abbrev pub Failed : {V : Type 0} → Setting V → Disk → List ℕ → ℕ → Disk → Type 0
Failed C d path e d' =
    (d' ≡ d)
    ⊎ ((de : Memory) × (entries : ℕ) × (get_entry C.layout C.env C.hash C.fsuid path d
          ≡ ok (de, entries))
        × Lost C d de e d')

Keeps-map :
    {V : Type 0} (P Q : ℕ → Disk → Type 0) (r : Result (Unit {0}) × V × Disk)
    → ((e : ℕ) (d' : Disk) → P e d' → Q e d')
    → Keeps P r
    → Keeps Q r
Keeps-map P Q (ok x, v, d') f k = tt
Keeps-map P Q (err e, v, d') f k = f e d' k
Keeps-map P Q (hangs, v, d') f k = tt

Keeps-err :
    {V : Type 0} (P : ℕ → Disk → Type 0) (r : Result (Unit {0}) × V × Disk) (e : ℕ)
    → Keeps P r
    → r.0 ≡ err e
    → P e r.2
Keeps-err P (ok x, v, d') e k h = cc
Keeps-err P (err f, v, d') e k h = let same : f ≡ e = cc (h) in subst (λ n. P n d') same k
Keeps-err P (hangs, v, d') e k h = cc

module _ {V : Type 0} (C : Setting V) (d : Disk) where
  forget-Keeps :
      (de : Memory) (v : V) → Keeps (Left C d de) ((forget C de d).0, v, (forget C de d).1)
  unfolding forget
  forget-Keeps de v = elim (Bool-cases C.super_again) [
    | inr r ↦ simp r (inr (record { not_again = r; code = refl; deleted = refl }))
    | inl r ↦
        elim (Result-cases
          (update_superblock C.layout (delete_entry C.env de d).1.usb de update_delete)) [
            | inl (usb, u) ↦ rw (r, u) tt
            | inr (inl (e, u)) ↦ rw (r, u) tt
            | inr (inr u) ↦ rw (r, u) tt
          ]
  ]

  restore_at-Keeps :
      (v : V) (dir_path : List ℕ) (may_create : Bool) (name : List ℕ) (de : Memory)
      → Keeps (Left C d de) (restore_at C v d dir_path may_create name de)
  unfolding restore_at
  restore_at-Keeps v dir_path may_create name de =
      elim (Result-cases (may_restore C v dir_path may_create)) [
        | inr (inl (e, a)) ↦ rw (a, restore_at, Keeps) (inl refl)
        | inr (inr a) ↦ rw (a, restore_at, Keeps) tt
        | inl (x, a) ↦ elim (Result-cases (make_file C v dir_path name de).0) [
          | inl (y, b) ↦
              rw (a, b, restore_at, Keeps) (forget-Keeps de (make_file C v dir_path name de).1)
          | inr (inl (e, b)) ↦ rw (a, b, restore_at, Keeps) (inl refl)
          | inr (inr b) ↦ rw (a, b, restore_at, Keeps) tt
        ]
      ]

  restore_entry-Keeps :
      (v : V) (place : Option (List ℕ)) (de : Memory)
      → Keeps (Left C d de) (restore_entry C v d place de)
  unfolding restore_entry
  restore_entry-Keeps v place de = elim (Option-cases (split_path C.layout de)) [
    | inl s ↦ rw (s, restore_entry, Keeps) tt
    | inr (p, s) ↦ elim (Result-cases (choose_directory C v p.0 place)) [
      | inl (q, c) ↦ rw (s, c, restore_entry, Keeps) (restore_at-Keeps v q.0 q.1 p.1 de)
      | inr (inl (e, c)) ↦ rw (s, c, restore_entry, Keeps) (inl refl)
      | inr (inr c) ↦ rw (s, c, restore_entry, Keeps) tt
    ]
  ]

  find_and_restore-Keeps :
      (path : List ℕ) (place : Option (List ℕ)) (v : V)
      → Keeps (Failed C d path) (find_and_restore C path place v d)
  unfolding find_and_restore
  find_and_restore-Keeps path place v =
      elim (Result-cases (get_entry C.layout C.env C.hash C.fsuid path d)) [
        | inl (p, g) ↦
            rw (g, find_and_restore)
              (Keeps-map (Left C d p.0) (Failed C d path) (restore_entry C v d place p.0)
                (λ e d' k. elim k [ inl s ↦ inl s | inr l ↦ inr (p.0, p.1, g, l) ])
                (restore_entry-Keeps v place p.0))
        | inr (inl (e, g)) ↦ rw (g, find_and_restore, Keeps) (inl refl)
        | inr (inr g) ↦ rw (g, find_and_restore, Keeps) tt
      ]

  if-Keeps :
      (path : List ℕ) (test : Bool) (e : ℕ) (v : V) (r : Result (Unit {0}) × V × Disk)
      → Keeps (Failed C d path) r
      → Keeps (Failed C d path) (if test then (err e, v, d) else r)
  if-Keeps path true e v r k = inl refl
  if-Keeps path false e v r k = k

  urm-Keeps :
      (path : List ℕ) (place : Option (List ℕ)) (v : V)
      → Keeps (Failed C d path) (urm C path place v d)
  unfolding urm
  urm-Keeps path place v = if-Keeps path (not ((C.vfs.tree v).iget C.undel_dir_ino)) eio v _ (
      if-Keeps path (not C.env.journal) eio v (find_and_restore C path place v d)
        (find_and_restore-Keeps path place v))

  -- A call of `ext3u_urm` that returns an error leaves the undelete file as it was, every block of it and the
  -- superblock, with one exception: where the superblock cannot be read again at the end, the error is EIO, the entry that
  -- was found for the path has been deleted from the list already, and the superblock is as it was.
  pub urm-err :
      (path : List ℕ) (place : Option (List ℕ)) (v : V) (e : ℕ)
      → (urm C path place v d).0 ≡ err e
      → Failed C d path e (urm C path place v d).2
  urm-err path place v e h =
      Keeps-err (Failed C d path) (urm C path place v d) e (urm-Keeps path place v) h

-- ===== src/Undel/Links/Unlink.antt =====
-- `ext3u_delete_entry` takes an entry out of the doubly linked list that the headers on the blocks make.
use mathlib.Core.Path.{subst}
use ext3u.Common.{
  ℕ, ◌+◌, ◌<◌, ◌≡◌, sym, ap, ◌∙◌, ◌⊎◌, inl, inr, true, List, [], ◌∷◌, ◌++◌, Memory, ok, arith,
}
use ext3u.Undel.Layout.{Record, get_record, d_next, d_previous, d_next_at, d_previous_at}
use ext3u.Undel.Ring.{Place, place}
use ext3u.Undel.Disk.{Disk, Env}
use ext3u.Undel.Super.Delete.{at_record}
use ext3u.Undel.Links.{relink_next, delete_entry}
use ext3u.Undel.Links.Chain.{Has, Distinct, Linked, Linked-remove}
use ext3u.Undel.Links.Chain.{Linked-next, Linked-previous, Has-append_left, Has-append_right}
use ext3u.Undel.Links.Fields.{next_of, prev_of, Headers}
use ext3u.Undel.Links.Relink.{relink_next-Relinked, relink_previous-Relinked, Relinked-TakenOut}

abbrev pub null_place : Place
null_place = place 0 0

-- What stands behind and before an entry of a list, in the words of the records.
behind-known :
    (d : Disk) (xs : List Place) (x : Place) (ys : List Place) (r : Record)
    → next_of d x ≡ at_record r
    → Linked (next_of d) (prev_of d) null_place (xs ++ (x ∷ ys)) null_place
    → (r.r_offset ≡ 0) ⊎ Has (at_record r) (xs ++ (x ∷ ys))
behind-known d xs x [] r told l =
    inl (ap (λ p. p.offset) (sym told ∙ Linked-next _ _ null_place xs x [] null_place l))
behind-known d xs x (y ∷ ys) r told l = inr (
    Has-append_right (at_record r) xs (x ∷ y ∷ ys)
      (inr (inl (sym told ∙ Linked-next _ _ null_place xs x (y ∷ ys) null_place l))))

before-known :
    (d : Disk) (xs : List Place) (x : Place) (ys : List Place) (r : Record)
    → prev_of d x ≡ at_record r
    → Linked (next_of d) (prev_of d) null_place (xs ++ (x ∷ ys)) null_place
    → (r.r_offset ≡ 0) ⊎ Has (at_record r) (xs ++ (x ∷ ys))
before-known d [] x ys r told l = inl (ap (λ p. p.offset) (sym told ∙ l.0))
before-known d (w ∷ ws) x ys r told l = inr (
    Has-append_left (at_record r) (w ∷ ws) (x ∷ ys)
      (subst (λ z. Has z (w ∷ ws)) told (Linked-previous _ _ null_place w ws x ys null_place l)))

-- An entry of a stored list is deleted, given as it was read, with its two records as they stand on its
-- block: the call succeeds, the other entries make the list without it, in both directions, and the
-- superblock is as before. The headers of the list are in blocks that can be read, behind the blocks'
-- own headers, and do not overlap; no entry stands twice in the list, and a journal handle is there.
pub delete_entry-Linked :
    (E : Env) (d : Disk) (de : Memory) (xs : List Place) (x : Place) (ys : List Place)
    → E.journal ≡ true
    → ((i : ℕ) → de i < 256)
    → Headers E (xs ++ (x ∷ ys))
    → Distinct (xs ++ (x ∷ ys))
    → get_record (x.offset + d_next_at) (d.b_data x.block) ≡ d_next de
    → get_record (x.offset + d_previous_at) (d.b_data x.block) ≡ d_previous de
    → Linked (next_of d) (prev_of d) null_place (xs ++ (x ∷ ys)) null_place
    → let (r, d') = delete_entry E de d in
      (r ≡ ok tt)
      × Linked (next_of d') (prev_of d') null_place (xs ++ ys) null_place
      × (d'.usb ≡ d.usb)
unfolding delete_entry
delete_entry-Linked E d de xs x ys journal bytes headers distinct tells_next tells_prev linked =
    let d₁ = (relink_next E de d).1 in
    let nx = ap at_record tells_next in
    let px = ap at_record tells_prev in
    let (r₁, one) =
      relink_next-Relinked headers de d journal bytes
        (behind-known d xs x ys (d_next de) nx linked) in
    let (r₂, two) =
      relink_previous-Relinked headers de d₁ journal bytes
        (before-known d xs x ys (d_previous de) px linked) in
    let no_null : ¬ Has null_place (xs ++ (x ∷ ys)) =
      λ h. omega (arith, headers.low null_place h) in
    rw r₁ (
      r₂,
      Linked-remove x (xs ++ (x ∷ ys))
          (Relinked-TakenOut x (at_record (d_next de)) (at_record (d_previous de)) (xs ++ (x ∷ ys))
            nx px one two)
          null_place xs ys null_place distinct no_null no_null (λ q h. h) linked,
      two.same_usb ∙ one.same_usb,
    )

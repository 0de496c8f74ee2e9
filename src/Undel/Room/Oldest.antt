-- ===== src/Undel/Room/Oldest.antt =====
-- A round of `ext3u_free_old_entries` drops the oldest entry.
use mathlib.Core.Path.{subst}
use ext3u.Common.{
  ℕ, ◌+◌, ◌%◌, ◌^◌, ◌<◌, ◌≡◌, refl, sym, ap, ◌∙◌, inl, inr, true, false, ne→==, List, [], ◌∷◌,
  Memory, ok, arith,
}
use ext3u.Undel.Layout.{
  SuperBlock, InodeLayout, get_record, null_record, d_next, d_previous, d_next_at, d_previous_at,
}
use ext3u.Undel.Ring.{Place, IsRing, InRing}
use ext3u.Undel.Disk.{Disk, Env}
use ext3u.Undel.Super.{update_superblock, update_delete, update_previous, uncount, with_fifo}
use ext3u.Undel.Super.Distance.{distance}
use ext3u.Undel.Super.Delete.{at_record, update_superblock-first}
use ext3u.Undel.Links.{update_entry, delete_entry}
use ext3u.Undel.Links.Effect.{Fits}
use ext3u.Undel.Links.Chain.{Has, Distinct, Linked}
use ext3u.Undel.Links.Stored.{RecordPut, update_entry-previous}
use ext3u.Undel.Links.Fields.{next_of, prev_of, Headers, Place-cases}
use ext3u.Undel.Links.Relink.{Relinked, RecordPut-Relinked}
use ext3u.Undel.Links.Unlink.{null_place, delete_entry-Linked}
use ext3u.Undel.Room.{with_usb, drop_entry}

-- A list stays linked where the neighbours of its entries stay.
Linked-cong :
    {nx pv nx' pv' : Place → Place} (p : Place) (xs : List Place) (n : Place)
    → ((q : Place) → Has q xs → nx' q ≡ nx q)
    → ((q : Place) → Has q xs → pv' q ≡ pv q)
    → Linked nx pv p xs n
    → Linked nx' pv' p xs n
Linked-cong p [] n f g l = tt
Linked-cong p (x ∷ xs) n f g l = (
  g x (inl refl) ∙ l.0,
  f x (inl refl) ∙ l.1,
  Linked-cong x xs n (λ q h. f q (inr h)) (λ q h. g q (inr h)) l.2,
)

null-Fits : Fits null_record
null-Fits = record {
  block_fits = omega arith;
  real_block_fits = omega arith;
  offset_fits = omega arith;
  size_fits = omega arith;
}

-- The superblock after the first of several entries has been dropped.
abbrev pub dropped_first : InodeLayout → SuperBlock → (de : Memory) → SuperBlock
dropped_first L usb de = with_fifo (uncount L usb de) (record (usb.s_fifo) {
  f_first = d_next de;
  f_free =
      (usb.s_fifo.f_free
        + distance usb.s_fifo.f_blocks usb.s_block_size (at_record usb.s_fifo.f_first)
            (at_record (d_next de)))
      % 2 ^ 32;
})

-- The disk after that.
abbrev pub dropped : InodeLayout → Env → Disk → (de : Memory) → Disk
dropped L E d de =
    (update_entry E false (d_next de) null_record update_previous
      (with_usb (dropped_first L d.usb de) (delete_entry E de d).1)).1

module _ (L : InodeLayout) (E : Env) (d : Disk) (de : Memory) (x y : Place) (ys : List Place)
    (journal : E.journal ≡ true) (bytes : (i : ℕ) → de i < 256) (headers : Headers E (x ∷ y ∷ ys))
    (distinct : Distinct (x ∷ y ∷ ys))
    (tells_next : get_record (x.offset + d_next_at) (d.b_data x.block) ≡ d_next de)
    (tells_prev : get_record (x.offset + d_previous_at) (d.b_data x.block) ≡ d_previous de)
    (linked : Linked (next_of d) (prev_of d) null_place (x ∷ y ∷ ys) null_place)
    (ring : IsRing d.usb.s_fifo.f_blocks d.usb.s_block_size)
    (starts : at_record d.usb.s_fifo.f_first ≡ x)
    (x_in : InRing d.usb.s_fifo.f_blocks d.usb.s_block_size x)
    (y_in : InRing d.usb.s_fifo.f_blocks d.usb.s_block_size y) where
  next-y : at_record (d_next de) ≡ y
  next-y = ap at_record (sym tells_next) ∙ linked.1

  updated :
      update_superblock L (delete_entry E de d).1.usb de update_delete
      ≡ ok (dropped_first L d.usb de)
  updated =
      let (done, list, same) =
        delete_entry-Linked E d de [] x (y ∷ ys) journal bytes headers distinct tells_next
          tells_prev linked in
      ap (λ u. update_superblock L u de update_delete) same
      ∙ update_superblock-first L d.usb de ring
          (subst (λ p. InRing d.usb.s_fifo.f_blocks d.usb.s_block_size p) (sym starts) x_in)
          (subst (λ p. InRing d.usb.s_fifo.f_blocks d.usb.s_block_size p) (sym next-y) y_in)
          (ap (λ p. p.offset) (ap at_record (sym tells_prev) ∙ linked.0))

  pub drop_entry-dropped : drop_entry L E de d ≡ ok (dropped L E d de)
  unfolding drop_entry
  drop_entry-dropped =
      rw
        (
          updated,
          ne→== (d_next de).r_offset 0
              (omega (arith, headers.low y (inr (inl refl)), ap (λ p. p.offset) next-y)),
          drop_entry,
        )
        refl

  here : Has (at_record (d_next de)) (y ∷ ys)
  here = inl next-y

  pub rest : Headers E (y ∷ ys)
  rest = record {
    readable = λ q h. headers.readable q (inr h);
    low = λ q h. headers.low q (inr h);
    apart = λ p q h k. headers.apart p q (inr h) (inr k);
  }

  pub dropped-RecordPut :
      RecordPut y.block
        (y.offset + d_previous_at)
        null_record
        (with_usb (dropped_first L d.usb de) (delete_entry E de d).1)
        (dropped L E d de)
  dropped-RecordPut =
      subst
        (λ q.
          RecordPut q.block (q.offset + d_previous_at) null_record
            (with_usb (dropped_first L d.usb de) (delete_entry E de d).1) (dropped L E d de))
        next-y
        (update_entry-previous E (d_next de) null_record
          (with_usb (dropped_first L d.usb de) (delete_entry E de d).1) journal
          (rest.readable (at_record (d_next de)) here) null-Fits).1

  dropped-Relinked :
      Relinked d_previous_at d_next_at
        (y ∷ ys)
        y
        null_place
        (with_usb (dropped_first L d.usb de) (delete_entry E de d).1)
        (dropped L E d de)
  dropped-Relinked =
      RecordPut-Relinked rest d_previous_at d_next_at y null_record (inl refl) dropped-RecordPut
        (omega arith) (omega arith) (omega arith) (omega arith)

  pub dropped-Linked :
      Linked
        (next_of (dropped L E d de))
        (prev_of (dropped L E d de))
        null_place
        (y ∷ ys)
        null_place
  dropped-Linked =
      let (done, list, same) =
        delete_entry-Linked E d de [] x (y ∷ ys) journal bytes headers distinct tells_next
          tells_prev linked in
      let one = dropped-Relinked in
      Linked-cong null_place (y ∷ ys) null_place (λ q h. one.beside q h) (previous one list) list
    where
      previous :
          Relinked d_previous_at d_next_at
            (y ∷ ys)
            y
            null_place
            (with_usb (dropped_first L d.usb de) (delete_entry E de d).1)
            (dropped L E d de)
          → Linked
              (next_of (delete_entry E de d).1)
              (prev_of (delete_entry E de d).1)
              null_place
              (y ∷ ys)
              null_place
          → (q : Place) → Has q (y ∷ ys)
          → prev_of (dropped L E d de) q ≡ prev_of (delete_entry E de d).1 q
      previous one list q h = elim (Place-cases q y) [
        | inl e ↦
            ap (prev_of (dropped L E d de)) e
            ∙ one.set (inl refl)
            ∙ sym list.0
            ∙ ap (prev_of (delete_entry E de d).1) (sym e)
        | inr ne ↦ one.same q h ne
      ]

  -- The oldest entry is dropped, where another one follows it: the round succeeds, the list is the rest of it,
  -- linked in both directions, and starts for the superblock at the entry that follows, and the space up to
  -- there is free again. The list is the one of the superblock; its first two entries stand in the ring, the
  -- headers are in blocks that can be read, do not overlap and stand behind the blocks' own headers, no
  -- entry stands twice, and the entry is given as it was read.
  pub drop_entry-oldest :
      (d' : Disk) × (drop_entry L E de d ≡ ok d')
      × (at_record d'.usb.s_fifo.f_first ≡ y)
      × (d'.usb.s_fifo.f_free
          ≡ (d.usb.s_fifo.f_free + distance d.usb.s_fifo.f_blocks d.usb.s_block_size x y) % 2 ^ 32)
      × Linked (next_of d') (prev_of d') null_place (y ∷ ys) null_place
  drop_entry-oldest =
      let one = dropped-Relinked in
      (
        dropped L E d de,
        drop_entry-dropped,
        ap (λ u. at_record u.s_fifo.f_first) one.same_usb ∙ next-y,
        ap (λ u. u.s_fifo.f_free) one.same_usb
            ∙ ap
                (λ p.
                  (d.usb.s_fifo.f_free
                    + distance d.usb.s_fifo.f_blocks d.usb.s_block_size p (at_record (d_next de)))
                  % 2 ^ 32)
                starts
            ∙ ap
                (λ p.
                  (d.usb.s_fifo.f_free + distance d.usb.s_fifo.f_blocks d.usb.s_block_size x p)
                  % 2 ^ 32)
                next-y,
        dropped-Linked,
      )

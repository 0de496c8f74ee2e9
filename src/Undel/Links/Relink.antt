-- ===== src/Undel/Links/Relink.antt =====
-- The two halves of `ext3u_delete_entry`.
use mathlib.Core.Path.{subst}
use native.Mathlib.Decide.{ℕ_discrete}
use ext3u.Common.{
  ℕ, ◌+◌, ◌≤◌, ◌<◌, ◌≡◌, refl, sym, ap, ◌∙◌, ◌≢◌, ◌⊎◌, inl, inr, true, false, eq→==, ne→==, List,
  Memory, ok, arith,
}
use ext3u.Undel.Layout.{Record, d_next, d_previous, d_next_at, d_previous_at, header_size}
use ext3u.Undel.Ring.{Place}
use ext3u.Undel.Disk.{Disk, Env}
use ext3u.Undel.Super.{update_next, update_previous}
use ext3u.Undel.Super.Delete.{at_record}
use ext3u.Undel.Links.{relink_next, relink_previous, update_entry}
use ext3u.Undel.Links.Chain.{Has, TakenOut}
use ext3u.Undel.Links.Stored.{RecordPut, get_record-Fits, update_entry-previous, update_entry-next}
use ext3u.Undel.Links.Fields.{
  field, next_of, prev_of, Headers, Place-cases, field-put, field-other, field-beside,
}

-- The record at `j` of one header set, and no other record of a header at `j` or `l` changed.
pub record Relinked (j l : ℕ) (all : List Place) (e v : Place) (d d' : Disk) : Type 0 where
  pub set : Has e all → field j d' e ≡ v
  pub same : (q : Place) → Has q all → q ≢ e → field j d' q ≡ field j d q
  pub beside : (q : Place) → Has q all → field l d' q ≡ field l d q
  pub same_usb : d'.usb ≡ d.usb

module _ {E : Env} {all : List Place} (headers : Headers E all) where
  pub RecordPut-Relinked :
      {d d' : Disk} (j l : ℕ) (e : Place) (r : Record)
      → Has e all
      → RecordPut e.block (e.offset + j) r d d'
      → j + 20 ≤ header_size
      → l + 20 ≤ header_size
      → 4 ≤ l
      → (l + 20 ≤ j) ⊎ (j + 20 ≤ l)
      → Relinked j l all e (at_record r) d d'
  RecordPut-Relinked {d} {d'} j l e r here put jfits lfits some_l apart = record {
    set = λ h. field-put headers e here j r put jfits;
    same = λ q h ne. field-other headers e here j r put jfits j q jfits h ne;
    beside = λ q h. beside q h (Place-cases q e);
    same_usb = put.same_usb;
  }
    where
      beside : (q : Place) → Has q all → (q ≡ e) ⊎ (q ≢ e) → field l d' q ≡ field l d q
      beside q h (inr ne) = field-other headers e here j r put jfits l q lfits h ne
      beside q h (inl e') =
          ap (field l d') e'
          ∙ field-beside headers e here j r put jfits l some_l apart
          ∙ ap (field l d) (sym e')

  -- Nothing done, where there is no entry to change.
  nothing-Relinked :
      (j l : ℕ) (r : Record) (v : Place) (d : Disk)
      → r.r_offset ≡ 0
      → Relinked j l all (at_record r) v d d
  nothing-Relinked j l r v d null = record {
    set = λ h. absurd (omega (arith, headers.low (at_record r) h));
    same = λ q h ne. refl;
    beside = λ q h. refl;
    same_usb = refl;
  }

  module _ (de : Memory) (d : Disk) (journal : E.journal ≡ true)
      (bytes : (i : ℕ) → de i < 256) where
    pub relink_next-Relinked :
        ((d_next de).r_offset ≡ 0) ⊎ Has (at_record (d_next de)) all
        → let (r, d') = relink_next E de d in
          (r ≡ ok tt)
          × Relinked d_previous_at d_next_at all
              (at_record (d_next de))
              (at_record (d_previous de))
              d
              d'
    unfolding relink_next
    relink_next-Relinked known = elim (ℕ_discrete (d_next de).r_offset 0) [
      | yes null ↦ rw (eq→== (d_next de).r_offset 0 null) (
        refl,
        nothing-Relinked d_previous_at d_next_at (d_next de) (at_record (d_previous de)) d null,
      )
      | no some ↦ rw (ne→== (d_next de).r_offset 0 some) (set some known)
    ]
      where
        set :
            (d_next de).r_offset ≢ 0
            → ((d_next de).r_offset ≡ 0) ⊎ Has (at_record (d_next de)) all
            → let (r, d') = update_entry E false (d_next de) (d_previous de) update_previous d in
              (r ≡ ok tt)
              × Relinked d_previous_at d_next_at all
                  (at_record (d_next de))
                  (at_record (d_previous de))
                  d
                  d'
        set some (inl null) = absurd (some null)
        set some (inr h) =
            let (r, put) =
              update_entry-previous E (d_next de) (d_previous de) d journal
                (headers.readable (at_record (d_next de)) h)
                (get_record-Fits d_previous_at de bytes) in
            (
              r,
              RecordPut-Relinked d_previous_at d_next_at (at_record (d_next de)) (d_previous de) h
                  put (omega arith) (omega arith) (omega arith) (omega arith),
            )

    pub relink_previous-Relinked :
        ((d_previous de).r_offset ≡ 0) ⊎ Has (at_record (d_previous de)) all
        → let (r, d') = relink_previous E de d in
          (r ≡ ok tt)
          × Relinked d_next_at d_previous_at all
              (at_record (d_previous de))
              (at_record (d_next de))
              d
              d'
    unfolding relink_previous
    relink_previous-Relinked known = elim (ℕ_discrete (d_previous de).r_offset 0) [
      | yes null ↦ rw (eq→== (d_previous de).r_offset 0 null) (
        refl,
        nothing-Relinked d_next_at d_previous_at (d_previous de) (at_record (d_next de)) d null,
      )
      | no some ↦ rw (ne→== (d_previous de).r_offset 0 some) (set some known)
    ]
      where
        set :
            (d_previous de).r_offset ≢ 0
            → ((d_previous de).r_offset ≡ 0) ⊎ Has (at_record (d_previous de)) all
            → let (r, d') = update_entry E false (d_previous de) (d_next de) update_next d in
              (r ≡ ok tt)
              × Relinked d_next_at d_previous_at all
                  (at_record (d_previous de))
                  (at_record (d_next de))
                  d
                  d'
        set some (inl null) = absurd (some null)
        set some (inr h) =
            let (r, put) =
              update_entry-next E (d_previous de) (d_next de) d journal
                (headers.readable (at_record (d_previous de)) h)
                (get_record-Fits d_next_at de bytes) in
            (
              r,
              RecordPut-Relinked d_next_at d_previous_at (at_record (d_previous de)) (d_next de) h
                  put (omega arith) (omega arith) (omega arith) (omega arith),
            )

-- Both changes together take the entry out.
pub Relinked-TakenOut :
    {d d₁ d₂ : Disk} (x n p : Place) (all : List Place)
    → next_of d x ≡ n
    → prev_of d x ≡ p
    → Relinked d_previous_at d_next_at all n p d d₁
    → Relinked d_next_at d_previous_at all p n d₁ d₂
    → TakenOut (next_of d) (prev_of d) (next_of d₂) (prev_of d₂) x all
Relinked-TakenOut {d} {d₁} {d₂} x n p all nx px one two = record {
  next_new = λ h. ap (next_of d₂) px ∙ two.set (subst (λ z. Has z all) px h) ∙ sym nx;
  next_same = λ q h ne far. two.same q h (λ e. far (e ∙ sym px)) ∙ one.beside q h;
  prev_new = λ h.
      two.beside (next_of d x) h
      ∙ ap (prev_of d₁) nx
      ∙ one.set (subst (λ z. Has z all) nx h)
      ∙ sym px;
  prev_same = λ q h ne far. two.beside q h ∙ one.same q h (λ e. far (e ∙ sym nx));
}

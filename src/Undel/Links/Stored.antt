-- ===== src/Undel/Links/Stored.antt =====
-- A record of a header as `ext3u_update_entry` stores it: the record is there, and besides it only the
-- header of the block may have changed.
use ext3u.Common.{
  ℕ, ◌+◌, ◌≤◌, ◌<◌, ◌≡◌, refl, sym, ap, ◌∙◌, ◌≢◌, ◌⊎◌, inl, inr, true, false, ◌==◌, if◌then◌else◌,
  Bool-cases, eq→==, ne→==, ==→eq, Memory, get-lt, ok, arith,
}
use ext3u.Undel.Layout.{Record, get_record, put_record, d_next_at, d_previous_at}
use ext3u.Undel.Disk.{Disk, Env, set_block}
use ext3u.Undel.Super.{update_next, update_previous}
use ext3u.Undel.Links.{mark_first, update_entry}
use ext3u.Undel.Links.Effect.{
  Fits, get_record-put_record, get_record-cong, put_record-outside, mark_first-outside,
}

pub record RecordPut (b at : ℕ) (r : Record) (d d' : Disk) : Type 0 where
  pub there : get_record at (d'.b_data b) ≡ r
  pub kept :
      (c i : ℕ) → (c ≢ b) ⊎ ((4 ≤ i) × ((i < at) ⊎ (at + 20 ≤ i))) → d'.b_data c i ≡ d.b_data c i
  pub same_usb : d'.usb ≡ d.usb

-- Memory of bytes.
abbrev pub IsBytes : Disk → Type 0
IsBytes d = (b i : ℕ) → d.b_data b i < 256

-- A record that is read from bytes fits its widths.
pub get_record-Fits : (at : ℕ) (m : Memory) → ((i : ℕ) → m i < 256) → Fits (get_record at m)
unfolding get_record
get_record-Fits at m bytes = record {
  block_fits = get-lt 4 at m bytes;
  real_block_fits = get-lt 8 (at + 8) m bytes;
  offset_fits = get-lt 2 (at + 16) m bytes;
  size_fits = get-lt 2 (at + 18) m bytes;
}

-- A block with the record stored in it, and then changed in its first four bytes at most.
stored-RecordPut :
    (mark : Memory → Memory) (b at : ℕ) (r : Record) (d : Disk)
    → ((m : Memory) (i : ℕ) → 4 ≤ i → mark m i ≡ m i)
    → Fits r
    → 4 ≤ at
    → RecordPut b at r d (set_block b (mark (put_record at r (d.b_data b))) d)
stored-RecordPut mark b at r d marks fits low = record {
  there = rw (eq→== b b refl) (
      get_record-cong at _ _ (λ i p q. marks _ i (omega arith))
      ∙ get_record-put_record at r (d.b_data b) fits);
  kept = kept;
  same_usb = refl;
}
  where
    kept :
        (c i : ℕ)
        → (c ≢ b) ⊎ ((4 ≤ i) × ((i < at) ⊎ (at + 20 ≤ i)))
        → (if c == b then mark (put_record at r (d.b_data b)) else d.b_data c) i ≡ d.b_data c i
    kept c i (inl other) = rw (ne→== c b other) refl
    kept c i (inr (far, out)) = elim (Bool-cases (c == b)) [
      | inr other ↦ rw other refl
      | inl same ↦ rw same (
          marks _ i far
          ∙ put_record-outside at r (d.b_data b) i out
          ∙ ap (λ a. d.b_data a i) (sym (==→eq c b same)))
    ]

module _ (E : Env) (entry update : Record) (d : Disk) (journal : E.journal ≡ true)
    (readable : E.readable entry.r_block ≡ true) (fits : Fits update) where
  pub update_entry-previous :
      (let (r, d') = update_entry E false entry update update_previous d in
        (r ≡ ok tt) × RecordPut entry.r_block (entry.r_offset + d_previous_at) update d d')
  unfolding update_entry
  update_entry-previous =
      rw (journal, readable)
        (
          refl,
          stored-RecordPut (mark_first entry update) entry.r_block (entry.r_offset + d_previous_at)
              update d (mark_first-outside entry update) fits (omega arith),
        )

  pub update_entry-next :
      (let (r, d') = update_entry E false entry update update_next d in
        (r ≡ ok tt) × RecordPut entry.r_block (entry.r_offset + d_next_at) update d d')
  unfolding update_entry
  update_entry-next =
      rw (journal, readable)
        (
          refl,
          stored-RecordPut (λ m. m) entry.r_block (entry.r_offset + d_next_at) update d
              (λ m i h. refl) fits (omega arith),
        )

-- ===== src/Undel/Save/Appended.antt =====
-- `ext3u_save` puts the entry at the end of the list.
use mathlib.Core.Path.{subst}
use native.Mathlib.Decide.{dec_lt, ℕ_discrete}
use ext3u.Common.{
  ℕ, ◌+◌, ◌-◌, ◌≤◌, ◌<◌, ◌≡◌, refl, sym, ap, ◌∙◌, ◌≢◌, ◌⊎◌, inl, inr, true, List, [], ◌∷◌, ◌++◌,
  Memory, Result, ok, arith,
}
use ext3u.Undel.Layout.{
  Record, InodeLayout, get_record, d_size, d_next_at, d_previous_at, header_size,
}
use ext3u.Undel.Ring.{Place, place, walk}
use ext3u.Undel.Ring.Walk.{walk-InRing}
use ext3u.Undel.Disk.{Disk, Env, and_then, byte_at}
use ext3u.Undel.Copy.{write_loop, fetch_entry}
use ext3u.Undel.Copy.RoundTrip.{Agrees, fetch_entry-Written}
use ext3u.Undel.Copy.Written.{Written, write_loop-Written}
use ext3u.Undel.Super.Delete.{at_record}
use ext3u.Undel.Links.Effect.{get_record-cong}
use ext3u.Undel.Links.Chain.{Has, Linked, Has-append_right}
use ext3u.Undel.Links.Stored.{RecordPut}
use ext3u.Undel.Links.Fields.{field, next_of, prev_of}
use ext3u.Undel.Links.Relink.{RecordPut-Relinked}
use ext3u.Undel.Links.Unlink.{null_place}
use ext3u.Undel.Room.{with_usb}
use ext3u.Undel.Save.{link_last, here, begin_entry, finish_entry, append_entry}
use ext3u.Undel.Save.Ready.{Has-more, Appends}
use ext3u.Undel.Save.Begun.{begin_entry-usb, begin_entry-data, field-Written}
use ext3u.Undel.Save.Linking.{
  Linked-last, link_last-next, link_last-previous, finish_entry-RecordPut,
}

module _ {L : InodeLayout} {E : Env} {d : Disk} {filled : Memory} {ws : List Place} {w : Place}
    (A : Appends L E d filled ws w) where
  new_entry : Memory
  new_entry = link_last d.usb.s_fifo.f_last filled

  size : ℕ
  size = d_size new_entry

  p : Place
  p = place d.usb.s_fifo.f_last_block d.usb.s_fifo.f_last_offset

  run : Result Place × Disk
  run =
      write_loop E d.usb.s_fifo.f_blocks d.usb.s_block_size (size + 2) new_entry 0
        d.usb.s_fifo.f_last_block d.usb.s_fifo.f_last_offset size 0 (begin_entry E size d)

  d₂ : Disk
  d₂ = run.1

  run-Written :
      (end : Place) × (run.0 ≡ ok end)
      × Written d.usb.s_fifo.f_blocks d.usb.s_block_size new_entry 0 p size
          (begin_entry E size d)
          d₂
  unfolding run d₂ p size new_entry
  run-Written =
      let done =
        write_loop-Written E d.usb.s_fifo.f_blocks d.usb.s_block_size new_entry A.small (size + 2) 0
          d.usb.s_fifo.f_last_block d.usb.s_fifo.f_last_offset size 0 (begin_entry E size d) A.ring
          A.readable A.inside A.fits (omega arith) in
      (_, done.0, done.1)

  -- The links of the old entries are as before.
  field-old :
      (j : ℕ) (q : Place)
      → j + 20 ≤ header_size
      → Has q (ws ++ (w ∷ []))
      → field j d₂ q ≡ field j d q
  unfolding p size new_entry
  field-old j q fits has =
      let (end, returned, W) = run-Written in
      ap at_record (
        get_record-cong (q.offset + j) (d₂.b_data q.block) (d.b_data q.block) (λ i low high.
          W.others (place q.block i) (λ k h e.
            A.free q (i - q.offset) k has (omega arith) h (e ∙ ap (place q.block) (omega arith)))
          ∙ begin_entry-data E size d q.block i A.first_some
              (omega (arith, A.headers.low q (Has-more q ws w p has)))))

  -- The links of the new entry are the ones of its bytes.
  field-new : (j : ℕ) → j + 20 ≤ header_size → field j d₂ p ≡ at_record (get_record j new_entry)
  unfolding p size new_entry
  field-new j fits =
      let (end, returned, W) = run-Written in
      field-Written new_entry p size j W (omega (arith, A.room)) A.long fits

  append_entry-run :
      append_entry L E filled d
      ≡ and_then run (finish_entry L E (here E d.usb.s_fifo size) new_entry)
  unfolding append_entry run size new_entry
  append_entry-run =
      simp
        (
          A.super_readable,
          A.readable d.usb.s_fifo.f_last_block A.inside.block_low A.inside.block_high,
          A.journal,
        )
        refl

  same_usb : d₂.usb ≡ d.usb
  same_usb =
      let (end, returned, W) = run-Written in W.same_usb ∙ begin_entry-usb E size d A.first_some

  -- The record of the entry before the new one.
  last₂ : Record
  last₂ = d₂.usb.s_fifo.f_last

  last₂-same : last₂ ≡ d.usb.s_fifo.f_last
  unfolding last₂
  last₂-same = ap (λ u. u.s_fifo.f_last) same_usb

  last₂-w : at_record last₂ ≡ w
  last₂-w = ap at_record last₂-same ∙ A.last_is

  here-p : at_record (here E d.usb.s_fifo size) ≡ p
  unfolding p
  here-p = ap (place d.usb.s_fifo.f_last_block) (omega (arith, A.small, A.inside.offset_high))

  Has-w : Has w (ws ++ (w ∷ []))
  Has-w = Has-append_right w ws (w ∷ []) (inl refl)

  Has-p : Has p (ws ++ (w ∷ p ∷ []))
  Has-p = Has-append_right p ws (w ∷ p ∷ []) (inr (inl refl))

  p-other : p ≢ at_record last₂
  unfolding p size new_entry
  p-other e =
      A.free w 0 0 Has-w (omega arith) (omega (arith, A.long))
        (e ∙ last₂-w ∙ ap (place w.block) (omega arith))

  -- The entry stands last in the list, with the links on both sides of it, when its bytes are on the blocks.
  Linked-appended :
      (d₃ : Disk)
      → RecordPut last₂.r_block (last₂.r_offset + d_next_at) (here E d.usb.s_fifo size) d₂ d₃
      → Linked (next_of d₃) (prev_of d₃) null_place (ws ++ (w ∷ p ∷ [])) null_place
  unfolding new_entry p
  Linked-appended d₃ stored =
      let hase = subst (λ q. Has q (ws ++ (w ∷ p ∷ []))) (sym last₂-w) (Has-more w ws w p Has-w) in
      let one =
        RecordPut-Relinked A.headers d_next_at d_previous_at (at_record last₂)
          (here E d.usb.s_fifo size) hase stored (omega arith) (omega arith) (omega arith)
          (omega arith) in
      Linked-last null_place ws w p null_place A.distinct
        (λ q h ne.
          one.same q (Has-more q ws w p h) (λ e. ne (e ∙ last₂-w))
          ∙ field-old d_next_at q (omega arith) h)
        (λ q h. one.beside q (Has-more q ws w p h) ∙ field-old d_previous_at q (omega arith) h)
        (ap (next_of d₃) (sym last₂-w) ∙ one.set hase ∙ here-p)
        (one.beside p Has-p
          ∙ field-new d_previous_at (omega arith)
          ∙ link_last-previous d.usb.s_fifo.f_last filled A.last_fits.block_fits
              A.last_fits.offset_fits
          ∙ A.last_is)
        (one.same p Has-p p-other
          ∙ field-new d_next_at (omega arith)
          ∙ link_last-next d.usb.s_fifo.f_last filled)
        A.linked

  -- The bytes of the entry are not among those of the record that is stored last.
  bytes-kept :
      (d₃ : Disk)
      → RecordPut last₂.r_block (last₂.r_offset + d_next_at) (here E d.usb.s_fifo size) d₂ d₃
      → (k : ℕ) → k < size
      → byte_at d₃ (walk d.usb.s_fifo.f_blocks d.usb.s_block_size k p) ≡ new_entry (0 + k)
  unfolding new_entry p size
  bytes-kept d₃ stored k h =
      let (end, returned, W) = run-Written in
      let q = walk d.usb.s_fifo.f_blocks d.usb.s_block_size k p in
      stored.kept q.block q.offset (
        away q (ℕ_discrete q.block last₂.r_block) (walk-InRing A.ring k A.inside).offset_low
          (λ i g. A.free w i k Has-w g h))
      ∙ W.bytes k h
    where
      away :
          (q : Place)
          → Dec (q.block ≡ last₂.r_block)
          → 4 ≤ q.offset
          → ((i : ℕ) → i < header_size → q ≢ place w.block (w.offset + i))
          → (q.block ≢ last₂.r_block)
            ⊎ ((4 ≤ q.offset)
                × ((q.offset < last₂.r_offset + d_next_at)
                    ⊎ (last₂.r_offset + d_next_at + 20 ≤ q.offset)))
      away q (no ne) low out = inl ne
      away q (yes e) low out = elim (dec_lt q.offset (last₂.r_offset + d_next_at)) [
        | yes l ↦ inr (low, inl l)
        | no l ↦ elim (dec_lt q.offset (last₂.r_offset + d_next_at + 20)) [
          | no m ↦ inr (low, inr (omega arith))
          | yes m ↦ absurd (
              out (q.offset - last₂.r_offset) (omega arith)
                (λ j. place ((e ∙ ap (λ r. r.block) last₂-w) j) (offset-at (omega arith) j)))
        ]
      ]
        where
          offset-at : last₂.r_offset ≤ q.offset → q.offset ≡ w.offset + (q.offset - last₂.r_offset)
          offset-at h = omega (arith, ap (λ r. r.offset) last₂-w)

  -- An entry is appended to a list with entries: the call succeeds, the new entry stands last in the list,
  -- linked in both directions, the superblock knows it as the last one, and it is fetched again byte by
  -- byte. The blocks can be read and a journal handle is there; the entry is at least a header and at most the ring
  -- long, its header lies in one block, and its places hold no header of the list.
  pub append_entry-Linked :
      (d' : Disk) × (append_entry L E filled d ≡ (ok tt, d'))
      × (at_record d'.usb.s_fifo.f_last
          ≡ place d.usb.s_fifo.f_last_block d.usb.s_fifo.f_last_offset)
      × Linked
          (next_of d')
          (prev_of d')
          null_place
          (ws ++ (w ∷ place d.usb.s_fifo.f_last_block d.usb.s_fifo.f_last_offset ∷ []))
          null_place
      × Agrees
          (link_last d.usb.s_fifo.f_last filled)
          (d_size (link_last d.usb.s_fifo.f_last filled))
          (fetch_entry E d.usb.s_fifo.f_blocks d.usb.s_block_size d' d.usb.s_fifo.f_last_block
            d.usb.s_fifo.f_last_offset)
  unfolding new_entry p size last₂ d₂
  append_entry-Linked =
      let (end, returned, W) = run-Written in
      let (d₃, done, f_last, stored) =
        finish_entry-RecordPut L E (here E d.usb.s_fifo size) new_entry end d₂ A.journal
          last-readable A.here_fits last-some in
      (
        d₃,
        append_entry-run
            ∙ ap (λ r. and_then (r, d₂) (finish_entry L E (here E d.usb.s_fifo size) new_entry))
                returned
            ∙ done,
        ap at_record f_last ∙ here-p,
        Linked-appended (with_usb d₂.usb d₃) stored,
        fetch_entry-Written E A.ring A.small A.readable A.inside A.room refl A.long (record {
          same_usb = refl;
          bytes = bytes-kept (with_usb d₂.usb d₃) stored;
          others = λ q m. refl;
        }),
      )
    where
      last-low : 4 ≤ last₂.r_offset
      last-low =
          omega (arith, A.headers.low w (Has-more w ws w p Has-w), ap (λ r. r.offset) last₂-w)

      last-some : last₂.r_offset ≢ 0
      last-some e = omega (arith, last-low, e)

      last-readable : E.readable last₂.r_block ≡ true
      last-readable =
          ap (λ q. E.readable q.block) last₂-w ∙ A.headers.readable w (Has-more w ws w p Has-w)

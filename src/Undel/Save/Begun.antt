-- ===== src/Undel/Save/Begun.antt =====
-- What `ext3u_save` does before it writes an entry to the list, and the records of the new entry.
use ext3u.Common.{
  ℕ, ◌+◌, ◌≤◌, ◌<◌, ◌≡◌, refl, sym, ap, ◌∙◌, ◌≢◌, inl, inr, Bool-cases, ◌==◌, ==→eq, eq→==, ne→==,
  Memory, get, put_outside, arith,
}
use ext3u.Undel.Layout.{get_record, header_size}
use ext3u.Undel.Ring.{Place}
use ext3u.Undel.Ring.Walk.{walk_within}
use ext3u.Undel.Disk.{Disk, Env, byte_at}
use ext3u.Undel.Copy.Written.{Written}
use ext3u.Undel.Links.Effect.{get_record-shift}
use ext3u.Undel.Links.Fields.{field}
use ext3u.Undel.Super.Delete.{at_record}
use ext3u.Undel.Save.{here, begin_entry}

-- In a list with entries only the header of a block changes at first.
pub begin_entry-usb :
    (E : Env) (size : ℕ) (d : Disk)
    → d.usb.s_fifo.f_first.r_offset ≢ 0
    → (begin_entry E size d).usb ≡ d.usb
unfolding begin_entry
begin_entry-usb E size d some =
    elim (Bool-cases (get 4 0 (d.b_data d.usb.s_fifo.f_last_block) == 0)) [
      | inl e ↦ rw (e, ne→== d.usb.s_fifo.f_first.r_offset 0 some, begin_entry) refl
      | inr e ↦ rw (e, ne→== d.usb.s_fifo.f_first.r_offset 0 some, begin_entry) refl
    ]

pub begin_entry-data :
    (E : Env) (size : ℕ) (d : Disk) (c i : ℕ)
    → d.usb.s_fifo.f_first.r_offset ≢ 0
    → 4 ≤ i
    → (begin_entry E size d).b_data c i ≡ d.b_data c i
unfolding begin_entry
begin_entry-data E size d c i some far =
    let b = d.usb.s_fifo.f_last_block in
    elim (Bool-cases (get 4 0 (d.b_data b) == 0)) [
      | inr e ↦ rw (e, ne→== d.usb.s_fifo.f_first.r_offset 0 some, begin_entry) refl
      | inl e ↦ elim (Bool-cases (c == b)) [
        | inr other ↦ rw (e, other, ne→== d.usb.s_fifo.f_first.r_offset 0 some, begin_entry) refl
        | inl same ↦
            rw (e, same, begin_entry)
              (put_outside 4 0 d.usb.s_fifo.f_last_offset (d.b_data b) i (inr far)
                ∙ ap (λ a. d.b_data a i) (sym (==→eq c b same)))
      ]
    ]

-- A record at another place.
pub at_record-shift :
    (at bt : ℕ) (m n : Memory)
    → ((k : ℕ) → k < 20 → m (at + k) ≡ n (bt + k))
    → at_record (get_record at m) ≡ at_record (get_record bt n)
at_record-shift at bt m n same = ap at_record (get_record-shift at bt m n same)

-- In a list without entries the first one is set as well.
pub begin_entry-first :
    (E : Env) (size : ℕ) (d : Disk)
    → d.usb.s_fifo.f_first.r_offset ≡ 0
    → (begin_entry E size d).usb
      ≡ record (d.usb) { s_fifo = record (d.usb.s_fifo) { f_first = here E d.usb.s_fifo size } }
unfolding begin_entry
begin_entry-first E size d none =
    elim (Bool-cases (get 4 0 (d.b_data d.usb.s_fifo.f_last_block) == 0)) [
      | inl e ↦ rw (e, eq→== d.usb.s_fifo.f_first.r_offset 0 none, begin_entry) refl
      | inr e ↦ rw (e, eq→== d.usb.s_fifo.f_first.r_offset 0 none, begin_entry) refl
    ]

-- A record of an entry whose bytes stand on the blocks, with its header in one block, is the one of its
-- bytes.
pub field-Written :
    {n bs : ℕ} (src : Memory) (p : Place) (len j : ℕ) {d₁ d₂ : Disk}
    → Written n bs src 0 p len d₁ d₂
    → p.offset + header_size < bs
    → header_size ≤ len
    → j + 20 ≤ header_size
    → field j d₂ p ≡ at_record (get_record j src)
field-Written {n} {bs} src p len j {d₁} {d₂} W room long fits =
    at_record-shift (p.offset + j) j (d₂.b_data p.block) src (λ k h.
      ap (d₂.b_data p.block) (omega arith)
      ∙ ap (byte_at d₂) (sym (walk_within n bs (j + k) p.block p.offset (omega arith)))
      ∙ W.bytes (j + k) (omega arith)
      ∙ ap src (omega arith))

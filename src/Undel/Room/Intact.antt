-- ===== src/Undel/Room/Intact.antt =====
-- A whole list on the blocks, as the loop of `ext3u_free_old_entries` needs it in each round.
use mathlib.Core.Path.{subst}
use ext3u.Common.{
  ℕ, ◌+◌, ◌^◌, ◌≤◌, ◌<◌, ◌≡◌, refl, sym, ap, ◌∙◌, inl, ◌≢◌, true, false, err, enomem, ne→==, List,
  [], ◌∷◌, Memory, Result, arith,
}
use ext3u.Undel.Layout.{
  InodeLayout, get_record, null_record, d_previous_at, entry_size, header_size,
}
use ext3u.Undel.Ring.{Place, place, IsRing, InRing}
use ext3u.Undel.Disk.{Disk, Env}
use ext3u.Undel.Copy.{fetch_entry}
use ext3u.Undel.Copy.Written.{AllReadable}
use ext3u.Undel.Copy.Header.{HeaderRead, fetch_entry-HeaderRead}
use ext3u.Undel.Super.Delete.{at_record}
use ext3u.Undel.Links.Effect.{get_record-shift}
use ext3u.Undel.Links.Chain.{Has, first}
use ext3u.Undel.Links.Stored.{IsBytes}
use ext3u.Undel.Links.Unlink.{null_place}
use ext3u.Undel.Links.Steps.{IsList}
use ext3u.Undel.Search.{get_first_entry}

-- The first entry has the null record behind it.
abbrev pub StartsNull : Disk → List Place → Type 0
StartsNull d [] = Unit
StartsNull d (x ∷ xs) = get_record (x.offset + d_previous_at) (d.b_data x.block) ≡ null_record

-- The list of the superblock is linked on blocks that can be read, each header in the ring and in one block.
pub record Intact (L : InodeLayout) (E : Env) (d : Disk) (all : List Place) : Type 0 where
  pub list : IsList E d all
  pub bytes : IsBytes d
  pub ring : IsRing d.usb.s_fifo.f_blocks d.usb.s_block_size
  pub small : d.usb.s_block_size ≤ 2 ^ 16
  pub wide : entry_size L ≤ d.usb.s_block_size
  pub readable : AllReadable E d.usb.s_fifo.f_blocks
  pub inside : (q : Place) → Has q all → InRing d.usb.s_fifo.f_blocks d.usb.s_block_size q
  pub room : (q : Place) → Has q all → q.offset + header_size < d.usb.s_block_size
  pub end_inside :
      InRing d.usb.s_fifo.f_blocks d.usb.s_block_size
        (place d.usb.s_fifo.f_last_block d.usb.s_fifo.f_last_offset)
  pub starts : at_record d.usb.s_fifo.f_first ≡ first all null_place
  pub starts_null : StartsNull d all

module _ (L : InodeLayout) (E : Env) (d : Disk) (x : Place) (xs : List Place)
    (I : Intact L E d (x ∷ xs)) where
  x_inside : InRing d.usb.s_fifo.f_blocks d.usb.s_block_size x
  x_inside = I.inside x (inl refl)

  pub some_first : d.usb.s_fifo.f_first.r_offset ≢ 0
  some_first e = omega (arith, x_inside.offset_low, ap (λ q. q.offset) I.starts, e)

  first_readable : E.readable d.usb.s_fifo.f_first.r_block ≡ true
  first_readable =
      ap (λ q. E.readable q.block) I.starts
      ∙ I.readable x.block x_inside.block_low x_inside.block_high

  -- The first entry is read, with the header that stands on its block.
  pub get_first_entry-HeaderRead : HeaderRead d x.block x.offset (get_first_entry E true d)
  unfolding get_first_entry
  get_first_entry-HeaderRead =
      rw (ne→== d.usb.s_fifo.f_first.r_offset 0 some_first, first_readable)
        (subst
          (λ q.
            HeaderRead d x.block x.offset
              (fetch_entry E d.usb.s_fifo.f_blocks d.usb.s_block_size d q.block q.offset))
          (sym I.starts)
          (fetch_entry-HeaderRead E d x.block x.offset I.ring I.small I.readable x_inside
            (I.room x (inl refl)) I.bytes))

  -- Without memory it is not.
  pub get_first_entry-enomem : get_first_entry E false d ≡ err enomem
  unfolding get_first_entry
  get_first_entry-enomem =
      rw (ne→== d.usb.s_fifo.f_first.r_offset 0 some_first, first_readable) refl

  module _ (out : Result (Memory × ℕ)) (H : HeaderRead d x.block x.offset out) where
    pub tells :
        (j : ℕ)
        → j + 20 ≤ header_size
        → get_record (x.offset + j) (d.b_data x.block) ≡ get_record j H.de
    tells j fits =
        get_record-shift (x.offset + j) j (d.b_data x.block) H.de
          (λ k h. ap (d.b_data x.block) (omega arith) ∙ sym (H.header (j + k) (omega arith)))

-- ===== src/Undel/Save/Ready.antt =====
-- The state in which `ext3u_save` can append an entry to a list with entries.
use ext3u.Common.{ℕ, ◌+◌, ◌^◌, ◌≤◌, ◌<◌, ◌≡◌, ◌≢◌, inl, inr, true, List, [], ◌∷◌, ◌++◌, Memory}
use ext3u.Undel.Layout.{InodeLayout, d_size, header_size}
use ext3u.Undel.Ring.{Place, place, IsRing, InRing, walk, ring_size}
use ext3u.Undel.Disk.{Disk, Env}
use ext3u.Undel.Copy.Written.{AllReadable}
use ext3u.Undel.Super.Delete.{at_record}
use ext3u.Undel.Links.Effect.{Fits}
use ext3u.Undel.Links.Chain.{Has, Distinct, Linked}
use ext3u.Undel.Links.Fields.{next_of, prev_of, Headers}
use ext3u.Undel.Links.Unlink.{null_place}
use ext3u.Undel.Save.{link_last, here}

pub Has-more :
    (q : Place) (ws : List Place) (w p : Place)
    → Has q (ws ++ (w ∷ []))
    → Has q (ws ++ (w ∷ p ∷ []))
Has-more q [] w p (inl e) = inl e
Has-more q [] w p (inr h) = absurd h
Has-more q (z ∷ zs) w p (inl e) = inl e
Has-more q (z ∷ zs) w p (inr h) = inr (Has-more q zs w p h)

-- The state in which an entry is appended to a list whose last entry is `w`: the places of the entry are in the
-- ring, its header in one block, and hold no header of the list.
pub record Appends (L : InodeLayout) (E : Env) (d : Disk) (filled : Memory) (ws : List Place)
    (w : Place) : Type 0 where
  pub super_readable : E.readable 0 ≡ true
  pub journal : E.journal ≡ true
  pub readable : AllReadable E d.usb.s_fifo.f_blocks
  pub ring : IsRing d.usb.s_fifo.f_blocks d.usb.s_block_size
  pub small : d.usb.s_block_size ≤ 2 ^ 16
  pub inside :
      InRing d.usb.s_fifo.f_blocks d.usb.s_block_size
        (place d.usb.s_fifo.f_last_block d.usb.s_fifo.f_last_offset)
  pub room : d.usb.s_fifo.f_last_offset + header_size < d.usb.s_block_size
  pub long : header_size ≤ d_size (link_last d.usb.s_fifo.f_last filled)
  pub fits :
      d_size (link_last d.usb.s_fifo.f_last filled)
      ≤ ring_size d.usb.s_fifo.f_blocks d.usb.s_block_size
  pub first_some : d.usb.s_fifo.f_first.r_offset ≢ 0
  pub last_is : at_record d.usb.s_fifo.f_last ≡ w
  pub last_fits : Fits d.usb.s_fifo.f_last
  pub here_fits : Fits (here E d.usb.s_fifo (d_size (link_last d.usb.s_fifo.f_last filled)))
  pub headers :
      Headers E (ws ++ (w ∷ place d.usb.s_fifo.f_last_block d.usb.s_fifo.f_last_offset ∷ []))
  pub distinct : Distinct (ws ++ (w ∷ []))
  pub free :
      (q : Place) (i k : ℕ)
      → Has q (ws ++ (w ∷ []))
      → i < header_size
      → k < d_size (link_last d.usb.s_fifo.f_last filled)
      → walk d.usb.s_fifo.f_blocks d.usb.s_block_size k
          (place d.usb.s_fifo.f_last_block d.usb.s_fifo.f_last_offset)
        ≢ place q.block (q.offset + i)
  pub linked : Linked (next_of d) (prev_of d) null_place (ws ++ (w ∷ [])) null_place

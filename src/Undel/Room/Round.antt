-- ===== src/Undel/Room/Round.antt =====
-- A round of the loop of `ext3u_free_old_entries` leaves a whole list, or an empty one.
use mathlib.Core.Path.{subst}
use ext3u.Common.{
  ℕ, ◌+◌, ◌^◌, ◌≤◌, ◌<◌, ◌≡◌, refl, sym, ap, ◌∙◌, inl, inr, true, false, eq→==, List, [], ◌∷◌,
  Memory, Result, ok, arith,
}
use ext3u.Undel.Layout.{
  InodeLayout, null_record, d_next, d_next_at, d_previous_at, entry_size, header_size,
}
use ext3u.Undel.Ring.{Place, place, IsRing, InRing}
use ext3u.Undel.Copy.Written.{AllReadable}
use ext3u.Undel.Links.Steps.{Headers-less}
use ext3u.Undel.Disk.{Disk, Env}
use ext3u.Undel.Super.{update_superblock, uncount, update_delete, update_previous}
use ext3u.Undel.Super.Delete.{at_record, emptied, update_superblock-emptied}
use ext3u.Undel.Links.{delete_entry}
use ext3u.Undel.Links.StillBytes.{update_entry-IsBytes, delete_entry-IsBytes}
use ext3u.Undel.Links.Unlink.{delete_entry-Linked}
use ext3u.Undel.Copy.Header.{HeaderRead}
use ext3u.Undel.Room.{with_usb, drop_entry}
use ext3u.Undel.Room.Oldest.{
  dropped, dropped_first, drop_entry-dropped, dropped-RecordPut, dropped-Linked,
}
use ext3u.Undel.Room.Intact.{Intact, tells}

module _ {L : InodeLayout} {E : Env} {d : Disk} (journal : E.journal ≡ true) where
  -- Where another entry follows, the rest of the list is whole.
  pub drop_entry-Intact :
      {x y : Place} {ys : List Place} {out : Result (Memory × ℕ)}
      → Intact L E d (x ∷ y ∷ ys)
      → (H : HeaderRead d x.block x.offset out)
      → (d' : Disk) × (drop_entry L E H.de d ≡ ok d') × Intact L E d' (y ∷ ys)
  unfolding uncount
  drop_entry-Intact {x} {y} {ys} {out} I H =
      let t = tells L E d x (y ∷ ys) I out H in
      let t_next = t d_next_at (omega arith) in
      let t_prev = t d_previous_at (omega arith) in
      let l = I.list in
      let x_in = I.inside x (inl refl) in
      let y_in = I.inside y (inr (inl refl)) in
      let put =
        dropped-RecordPut L E d H.de x y ys journal H.bytes l.headers l.distinct t_next t_prev
          l.linked I.ring I.starts x_in y_in in
      let same = sym put.same_usb in
      (
        dropped L E d H.de,
        drop_entry-dropped L E d H.de x y ys journal H.bytes l.headers l.distinct t_next t_prev
            l.linked I.ring I.starts x_in y_in,
        record {
          list = record {
            headers = Headers-less [] x (y ∷ ys) l.headers;
            distinct = l.distinct.1;
            linked =
                dropped-Linked L E d H.de x y ys journal H.bytes l.headers l.distinct t_next t_prev
                  l.linked I.ring I.starts x_in y_in;
          };
          bytes =
              update_entry-IsBytes E false (d_next H.de) null_record update_previous
                (with_usb (dropped_first L d.usb H.de) (delete_entry E H.de d).1)
                (delete_entry-IsBytes E H.de d I.bytes);
          ring = subst (λ u. IsRing u.s_fifo.f_blocks u.s_block_size) same I.ring;
          small = subst (λ u. u.s_block_size ≤ 2 ^ 16) same I.small;
          wide = subst (λ u. entry_size L ≤ u.s_block_size) same I.wide;
          readable = subst (λ u. AllReadable E u.s_fifo.f_blocks) same I.readable;
          inside = λ q h.
              subst (λ u. InRing u.s_fifo.f_blocks u.s_block_size q) same (I.inside q (inr h));
          room =
              λ q h. subst (λ u. q.offset + header_size < u.s_block_size) same (I.room q (inr h));
          end_inside =
              subst
                (λ u.
                  InRing u.s_fifo.f_blocks u.s_block_size
                    (place u.s_fifo.f_last_block u.s_fifo.f_last_offset))
                same I.end_inside;
          starts =
              subst (λ u. at_record u.s_fifo.f_first ≡ y) same
                (ap at_record (sym t_next) ∙ l.linked.1);
          starts_null = put.there;
        },
      )

  -- The last entry leaves an empty list.
  pub drop_entry-empties :
      {x : Place} {out : Result (Memory × ℕ)}
      → Intact L E d (x ∷ [])
      → (H : HeaderRead d x.block x.offset out)
      → (d' : Disk) × (drop_entry L E H.de d ≡ ok d') × (d'.usb.s_fifo.f_first.r_offset ≡ 0)
  unfolding drop_entry
  drop_entry-empties {x} {out} I H =
      let t = tells L E d x [] I out H in
      let (done, list, same) =
        delete_entry-Linked E d H.de [] x [] journal H.bytes I.list.headers I.list.distinct
          (t d_next_at (omega arith)) (t d_previous_at (omega arith)) I.list.linked in
      let next_null : (d_next H.de).r_offset ≡ 0 =
        ap (λ r. r.r_offset) (sym (t d_next_at (omega arith)))
        ∙ ap (λ q. q.offset) I.list.linked.1 in
      let updated : update_superblock L (delete_entry E H.de d).1.usb H.de update_delete
          ≡ ok (emptied L d.usb H.de (d_next H.de)) =
        ap (λ u. update_superblock L u H.de update_delete) same
        ∙ update_superblock-emptied L d.usb H.de I.ring
            (subst (InRing d.usb.s_fifo.f_blocks d.usb.s_block_size) (sym I.starts)
              (I.inside x (inl refl)))
            I.end_inside I.wide (omega (arith, I.small))
            (sym (t d_previous_at (omega arith)) ∙ I.starts_null) next_null in
      (
        with_usb (emptied L d.usb H.de (d_next H.de)) (delete_entry E H.de d).1,
        rw (updated, eq→== (d_next H.de).r_offset 0 next_null, drop_entry) refl,
        next_null,
      )

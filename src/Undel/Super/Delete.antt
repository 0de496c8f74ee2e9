-- ===== src/Undel/Super/Delete.antt =====
-- What `ext3u_update_superblock` does to the superblock when an entry is removed: in the middle of the
-- list, at its start, and where it was the only one.
use ext3u.Common.{
  ℕ, suc, ◌+◌, ◌-◌, ◌*◌, ◌%◌, ◌^◌, ◌≤◌, ◌<◌, ◌≡◌, ap, ◌∙◌, ◌≢◌, eq→==, ne→==, le→ltb, Memory, ok,
  arith,
}
use ext3u.Undel.Layout.{
  Record, SuperBlock, InodeLayout, d_next, d_previous, entry_size, null_record,
}
use ext3u.Undel.Ring.{Place, place, IsRing, InRing, next_block}
use ext3u.Undel.Super.{
  update_delete, update_superblock, uncount, drop_first, drop_last, add_free, with_fifo,
  distance_loop, tail_block, tail_offset, skip_short_rest,
}
use ext3u.Undel.Super.Distance.{distance, distance_loop-distance, distance_loop-block}

-- A record as a place.
abbrev pub at_record : Record → Place
at_record r = place r.r_block r.r_offset

drop_first-null :
    (de : Memory) (usb : SuperBlock) (start end : Place)
    → (d_previous de).r_offset ≡ 0
    → drop_first de (usb, start, end) ≡ (
      with_fifo usb (record (usb.s_fifo) { f_first = d_next de }),
      at_record usb.s_fifo.f_first,
      at_record (d_next de),
    )
unfolding drop_first
drop_first-null de usb start end e = rw (eq→== _ 0 e)

drop_last-next :
    (L : InodeLayout) (de : Memory) (s : SuperBlock × Place × Place)
    → (d_next de).r_offset ≢ 0
    → drop_last L de s ≡ ok s
unfolding drop_last
drop_last-next L de s e = rw (ne→== _ 0 e)

add_free-distance :
    (usb : SuperBlock) (p q : Place)
    → IsRing usb.s_fifo.f_blocks usb.s_block_size
    → InRing usb.s_fifo.f_blocks usb.s_block_size p
    → InRing usb.s_fifo.f_blocks usb.s_block_size q
    → add_free (usb, p, q)
      ≡ ok (
          with_fifo usb (record (usb.s_fifo) {
            f_free =
                (usb.s_fifo.f_free + distance usb.s_fifo.f_blocks usb.s_block_size p q) % 2 ^ 32;
          }))
unfolding add_free
add_free-distance usb p q ring inp inq =
    let loop =
      distance_loop-distance ring (usb.s_fifo.f_blocks + usb.s_block_size * 2 + 2) p q 0 inp inq
        (omega arith) in
    rw (loop, add_free)
      (ap
        (λ k.
          ok (with_fifo usb (record (usb.s_fifo) { f_free = (usb.s_fifo.f_free + k) % 2 ^ 32 })))
        (omega arith))

-- The first of several entries is removed: the list starts at the next entry, and the space from
-- the old first entry to it, round the ring, is free again, where both stand in the ring and the
-- removed entry has no previous one.
pub update_superblock-first :
    (L : InodeLayout) (usb : SuperBlock) (de : Memory)
    → IsRing usb.s_fifo.f_blocks usb.s_block_size
    → InRing usb.s_fifo.f_blocks usb.s_block_size (at_record usb.s_fifo.f_first)
    → InRing usb.s_fifo.f_blocks usb.s_block_size (at_record (d_next de))
    → (d_previous de).r_offset ≡ 0
    → update_superblock L usb de update_delete
      ≡ ok (
          with_fifo (uncount L usb de) (record (usb.s_fifo) {
            f_first = d_next de;
            f_free =
                (usb.s_fifo.f_free
                  + distance usb.s_fifo.f_blocks usb.s_block_size
                      (at_record usb.s_fifo.f_first)
                      (at_record (d_next de)))
                % 2 ^ 32;
          }))
unfolding update_superblock uncount
update_superblock-first L usb de ring first next null =
    rw
      (
        eq→== (d_previous de).r_offset 0 null,
        ne→== usb.s_fifo.f_first.r_offset 0 (omega arith),
        drop_first-null de (uncount L usb de) (place 0 0) (place 0 0) null,
        drop_last-next L de
            (
              with_fifo (uncount L usb de) (record (usb.s_fifo) { f_first = d_next de }),
              at_record usb.s_fifo.f_first,
              at_record (d_next de),
            )
            (omega arith),
      )
      (add_free-distance
        (with_fifo (uncount L usb de) (record (usb.s_fifo) { f_first = d_next de }))
        (at_record usb.s_fifo.f_first) (at_record (d_next de)) ring first next)

-- From the null record the count goes over one whole block, with its header, to the first block.
add_free-from_null :
    (usb : SuperBlock) (q : Place)
    → IsRing usb.s_fifo.f_blocks usb.s_block_size
    → InRing usb.s_fifo.f_blocks usb.s_block_size q
    → add_free (usb, place 0 0, q)
      ≡ ok (
          with_fifo usb (record (usb.s_fifo) {
            f_free =
                (usb.s_fifo.f_free
                  + (usb.s_block_size
                      + distance usb.s_fifo.f_blocks usb.s_block_size (place 1 4) q))
                % 2 ^ 32;
          }))
unfolding add_free
add_free-from_null usb q ring inq =
    rw (loop, add_free)
      (ap
        (λ k.
          ok (with_fifo usb (record (usb.s_fifo) { f_free = (usb.s_fifo.f_free + k) % 2 ^ 32 })))
        (omega arith))
  where
    n : ℕ
    n = usb.s_fifo.f_blocks

    bs : ℕ
    bs = usb.s_block_size

    first_block : next_block n 0 ≡ 1
    first_block = grind arith

    loop :
        distance_loop n bs (n + bs * 2 + 2) 0 0 q.block q.offset 0
        ≡ ok (0 + bs - 0 + distance n bs (place 1 4) q)
    loop =
        ap (λ f. distance_loop n bs f 0 0 q.block q.offset 0) more
        ∙ distance_loop-block n bs (n + bs * 2 + 1) 0 0 q.block q.offset 0 (omega arith)
        ∙ ap (λ b. distance_loop n bs (n + bs * 2 + 1) b 4 q.block q.offset (0 + bs - 0))
            first_block
        ∙ distance_loop-distance ring (n + bs * 2 + 1) (place 1 4) q (0 + bs - 0)
            (omega (arith, ring.some_block, ring.some_room)) inq (omega arith)
      where
        more : n + bs * 2 + 2 ≡ suc (n + bs * 2 + 1)
        more = omega arith

tail_block-null : (n bs : ℕ) → tail_block n bs null_record ≡ ok 0
unfolding tail_block
tail_block-null n bs = rw (le→ltb bs 0 (omega arith))

tail_offset-null : (bs : ℕ) → 0 < bs → tail_offset bs 0 0 ≡ 0
unfolding tail_offset
tail_offset-null bs h = ground arith

skip_short_rest-null :
    (n bs write_min : ℕ)
    → write_min ≤ bs
    → bs < 2 ^ 32
    → skip_short_rest n bs write_min (place 0 0) ≡ place 0 0
unfolding skip_short_rest
skip_short_rest-null n bs write_min h k = ground arith

drop_last-only :
    (L : InodeLayout) (de : Memory) (usb : SuperBlock) (start end : Place)
    → d_previous de ≡ null_record
    → (d_next de).r_offset ≡ 0
    → entry_size L ≤ usb.s_block_size
    → usb.s_block_size < 2 ^ 32
    → drop_last L de (usb, start, end)
      ≡ ok (
        with_fifo usb (record (usb.s_fifo) { f_last = null_record; f_last_offset = 0 }),
        place 0 0,
        place usb.s_fifo.f_last_block usb.s_fifo.f_last_offset,
      )
unfolding drop_last
drop_last-only L de usb start end prev next fits wide =
    rw (eq→== _ 0 next, block, drop_last)
      (rw (
        prev,
        tail_offset-null usb.s_block_size (omega arith),
        skip_short_rest-null usb.s_fifo.f_blocks usb.s_block_size (entry_size L) fits wide,
      ))
  where
    block : tail_block usb.s_fifo.f_blocks usb.s_block_size (d_previous de) ≡ ok 0
    block = rw prev (tail_block-null usb.s_fifo.f_blocks usb.s_block_size)

-- The superblock when the only entry has been removed.
abbrev pub emptied : InodeLayout → SuperBlock → (de : Memory) (next : Record) → SuperBlock
emptied L usb de next = with_fifo (uncount L usb de) (record (usb.s_fifo) {
  f_first = next;
  f_last = null_record;
  f_last_offset = 0;
  f_free =
      (usb.s_fifo.f_free
        + (usb.s_block_size
            + distance usb.s_fifo.f_blocks usb.s_block_size (place 1 4)
                (place usb.s_fifo.f_last_block usb.s_fifo.f_last_offset)))
      % 2 ^ 32;
})

-- The next record of that entry becomes the first one; it may keep other fields than its offset.
pub update_superblock-emptied :
    (L : InodeLayout) (usb : SuperBlock) (de : Memory)
    → IsRing usb.s_fifo.f_blocks usb.s_block_size
    → InRing usb.s_fifo.f_blocks usb.s_block_size (at_record usb.s_fifo.f_first)
    → InRing usb.s_fifo.f_blocks usb.s_block_size
        (place usb.s_fifo.f_last_block usb.s_fifo.f_last_offset)
    → entry_size L ≤ usb.s_block_size
    → usb.s_block_size < 2 ^ 32
    → d_previous de ≡ null_record
    → (d_next de).r_offset ≡ 0
    → update_superblock L usb de update_delete ≡ ok (emptied L usb de (d_next de))
unfolding update_superblock uncount
update_superblock-emptied L usb de ring first last fits wide prev next =
    rw
      (
        eq→== (d_previous de).r_offset 0 (ap (λ r. r.r_offset) prev),
        ne→== usb.s_fifo.f_first.r_offset 0 (omega arith),
        drop_first-null de (uncount L usb de) (place 0 0) (place 0 0) (ap (λ r. r.r_offset) prev),
        drop_last-only L de
            (with_fifo (uncount L usb de) (record (usb.s_fifo) { f_first = d_next de }))
            (at_record usb.s_fifo.f_first) (at_record (d_next de)) prev next fits wide,
      )
      (add_free-from_null
        (with_fifo (uncount L usb de)
          (record (usb.s_fifo) { f_first = d_next de; f_last = null_record; f_last_offset = 0 }))
        (place usb.s_fifo.f_last_block usb.s_fifo.f_last_offset) ring last)

-- The only entry is removed, in a ring whose blocks hold a header and an inode: the first and
-- last records become null, but the list is not set up again as the branch for an empty list
-- would do. `f_last_offset` becomes 0, `f_last_block` stays, and `f_free` grows by a whole block
-- and the distance from the start of the ring to the place behind the entry.
pub update_superblock-only :
    (L : InodeLayout) (usb : SuperBlock) (de : Memory)
    → IsRing usb.s_fifo.f_blocks usb.s_block_size
    → InRing usb.s_fifo.f_blocks usb.s_block_size (at_record usb.s_fifo.f_first)
    → InRing usb.s_fifo.f_blocks usb.s_block_size
        (place usb.s_fifo.f_last_block usb.s_fifo.f_last_offset)
    → entry_size L ≤ usb.s_block_size
    → usb.s_block_size < 2 ^ 32
    → d_previous de ≡ null_record
    → d_next de ≡ null_record
    → update_superblock L usb de update_delete
      ≡ ok (
          with_fifo (uncount L usb de) (record (usb.s_fifo) {
            f_first = null_record;
            f_last = null_record;
            f_last_offset = 0;
            f_free =
                (usb.s_fifo.f_free
                  + (usb.s_block_size
                      + distance usb.s_fifo.f_blocks usb.s_block_size
                          (place 1 4)
                          (place usb.s_fifo.f_last_block usb.s_fifo.f_last_offset)))
                % 2 ^ 32;
          }))
update_superblock-only L usb de ring first last fits wide prev next =
    update_superblock-emptied L usb de ring first last fits wide prev (ap (λ r. r.r_offset) next)
    ∙ ap (λ r. ok (emptied L usb de r)) next

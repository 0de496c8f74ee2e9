-- ===== src/Undel/Super.antt =====
-- ext3u/undel.c, `ext3u_update_superblock`: what the superblock records of the list after an entry
-- has been removed. Counters of 64 and 32 bits wrap. The `int` variables of the function hold block
-- numbers, offsets and sizes, which are taken as they are.
pub mod Distance
pub mod Delete
use ext3u.Common.{
  ℕ, zero, suc, ◌+◌, ◌-◌, ◌*◌, ◌%◌, ◌^◌, min, Bool, true, false, ◌&&◌, not, ◌==◌, ltb, leb,
  if◌then◌else◌, Memory, Result, ok, err, hangs,
}
use ext3u.Undel.Layout.{
  Record, FifoInfo, SuperBlock, InodeLayout, fifo_null, fifo_empty, block_header_size, null_record,
  sub32, d_next, d_previous, entry_size, d_inode_i_size,
}
use ext3u.Undel.Ring.{Place, place, next_block}

-- `EXT3u_UPDATE_PREVIOUS`, `_NEXT`, `_ADD` and `_DELETE`.
pub data Update : Type 0 where
  update_previous update_next update_add update_delete : Update

-- The loop that counts the bytes from the start to the end: to the end of a block at once, and in the
-- end's block one by one. No more rounds are needed than there are blocks and bytes in two blocks.
pub distance_loop : (n bs fuel start_block start_offset end_block end_offset free : ℕ) → Result ℕ
distance_loop n bs zero sb so eb eo free = hangs
distance_loop n bs (suc fuel) sb so eb eo free = elim ((sb == eb) && (so == eo)) [
  | true ↦ ok free
  | false ↦ elim (sb == eb) [
    | false ↦ distance_loop n bs fuel (next_block n sb) block_header_size eb eo (free + bs - so)
    | true ↦ elim (so + 1 == bs) [
      | true ↦ distance_loop n bs fuel (next_block n sb) block_header_size eb eo (free + 1)
      | false ↦ distance_loop n bs fuel sb (so + 1) eb eo (free + 1)
    ]
  ]
]

-- The loop over `remaining` that moves `block` on, when the entry before the removed one goes over the
-- end of its block. At an offset past the block `remaining` grows.
pub block_loop : (n bs fuel remaining block offset : ℕ) → Result ℕ
block_loop n bs zero remaining block offset = hangs
block_loop n bs (suc fuel) remaining block offset = elim (remaining == 0) [
  | true ↦ ok block
  | false ↦
      block_loop n bs fuel (remaining + (offset - bs) - min remaining (bs - offset))
        (next_block n block) block_header_size
]

-- `start_offset` behind the entry before the removed one.
pub tail_offset : (bs offset size : ℕ) → ℕ
tail_offset bs offset size =
    if leb bs (offset + size)
    then (offset + size - block_header_size) % (bs - block_header_size) + block_header_size
    else offset + size

-- `block` behind it.
pub tail_block : (n bs : ℕ) → Record → Result ℕ
tail_block n bs previous =
    if ltb bs (previous.r_size + previous.r_offset)
    then block_loop n bs (previous.r_offset + previous.r_size + 2)
        (previous.r_offset + previous.r_size - block_header_size) previous.r_block previous.r_offset
    else ok previous.r_block

-- The next block, where the rest of this one holds no header and inode.
pub skip_short_rest : (n bs write_min : ℕ) → Place → Place
skip_short_rest n bs write_min p =
    if ltb (sub32 bs p.offset) write_min then place (next_block n p.block) block_header_size else p

abbrev pub with_fifo : SuperBlock → FifoInfo → SuperBlock
with_fifo usb fifo = record usb { s_fifo = fifo }

-- The entry's file is no longer counted.
unfoldable pub uncount : InodeLayout → SuperBlock → Memory → SuperBlock
uncount L usb de = record usb {
  s_del = record (usb.s_del) {
    d_current_size = (usb.s_del.d_current_size + 2 ^ 64 - d_inode_i_size L de) % 2 ^ 64;
    d_file_count = (usb.s_del.d_file_count + 2 ^ 32 - 1) % 2 ^ 32;
  };
}

-- The list that is found empty is set up again.
pub reset_fifo : SuperBlock → SuperBlock
reset_fifo usb = with_fifo usb (record (usb.s_fifo) {
  f_first = null_record;
  f_last = null_record;
  f_last_block = usb.s_fifo.f_start_block;
  f_last_offset = block_header_size;
  f_free = usb.s_fifo.f_blocks * (usb.s_block_size - block_header_size) % 2 ^ 32;
})

-- The start, the end and the list pointers when the first entry was removed.
pub drop_first : Memory → SuperBlock × Place × Place → SuperBlock × Place × Place
drop_first de (usb, start, end) =
    if fifo_null (d_previous de)
    then (
      with_fifo usb (record (usb.s_fifo) { f_first = d_next de }),
      place usb.s_fifo.f_first.r_block usb.s_fifo.f_first.r_offset,
      place (d_next de).r_block (d_next de).r_offset,
    )
    else (usb, start, end)

-- The same when the last entry was removed. `f_last_offset` is set, and `f_last_block` is not.
pub drop_last :
    InodeLayout → Memory → SuperBlock × Place × Place → Result (SuperBlock × Place × Place)
drop_last L de (usb, start, end) =
    let previous = d_previous de in
    if fifo_null (d_next de)
    then elim (tail_block usb.s_fifo.f_blocks usb.s_block_size previous) [
      | ok block ↦
          let from =
            skip_short_rest usb.s_fifo.f_blocks usb.s_block_size (entry_size L)
              (place block (tail_offset usb.s_block_size previous.r_offset previous.r_size)) in
          ok (
            with_fifo usb (record (usb.s_fifo) { f_last = previous; f_last_offset = from.offset }),
            from,
            place usb.s_fifo.f_last_block usb.s_fifo.f_last_offset,
          )
      | err e ↦ err e
      | hangs ↦ hangs
    ]
    else ok (usb, start, end)

-- `usb->s_fifo.f_free += free`.
pub add_free : SuperBlock × Place × Place → Result SuperBlock
add_free (usb, start, end) =
    elim (distance_loop usb.s_fifo.f_blocks usb.s_block_size
      (usb.s_fifo.f_blocks + usb.s_block_size * 2 + 2) start.block start.offset end.block end.offset
      0) [
        | ok free ↦
            ok
              (with_fifo usb (record (usb.s_fifo) { f_free = (usb.s_fifo.f_free + free) % 2 ^ 32 }))
        | err e ↦ err e
        | hangs ↦ hangs
      ]

-- `ext3u_update_superblock`; its return value is always 0.
unfoldable pub update_superblock : InodeLayout → SuperBlock → Memory → Update → Result SuperBlock
update_superblock L usb de update_delete =
    let usb₁ = uncount L usb de in
    if not (fifo_null (d_previous de)) && not (fifo_null (d_next de))
    then ok usb₁
    else if fifo_empty usb₁
    then ok (reset_fifo usb₁)
    else elim (drop_last L de (drop_first de (usb₁, place 0 0, place 0 0))) [
      | ok s ↦ add_free s
      | err e ↦ err e
      | hangs ↦ hangs
    ]
update_superblock L usb de _ = ok usb

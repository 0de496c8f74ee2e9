-- ===== src/Undel/Copy.antt =====
-- The copy loops of ext3u/undel.c: `ext3u_save` writes an entry over consecutive blocks, and
-- `ext3u_get_first_entry`, `ext3u_search_entry` and `ext3u_do_uls` read what follows its header.
pub mod Written
pub mod Read
pub mod RoundTrip
pub mod Header
pub mod Head
use ext3u.Common.{
  ℕ, zero, suc, ◌+◌, ◌-◌, ◌%◌, ◌^◌, min, Bool, true, false, ◌&&◌, not, ◌==◌, if◌then◌else◌, Memory,
  zeroed, memcpy, Result, ok, err, hangs, eio,
}
use ext3u.Undel.Layout.{sub32, block_header_size, header_size, d_size}
use ext3u.Undel.Ring.{Place, place, next_block}
use ext3u.Undel.Disk.{Disk, Env, M, set_block}

-- The loop of `ext3u_save`: `remaining` bytes of `new_entry`, from its byte `s` on, to `block` from
-- `offset` on. The result is `end_block` and `end_offset`. A block that cannot be read ends the loop
-- with the error of `ext3_bread`, behind what has been written. A round that copies nothing starts at
-- the end of a block, and the next one copies something, so two rounds more than there are bytes are
-- enough where a block has room behind its header.
pub write_loop :
    (E : Env) (n bs : ℕ) (fuel : ℕ) (src : Memory) (s block offset remaining end_offset : ℕ)
    → M Place
write_loop E n bs zero src s block offset remaining end_offset d = (hangs, d)
write_loop E n bs (suc fuel) src s block offset remaining end_offset d =
    let to_copy = min (sub32 bs offset) remaining in
    let d' = set_block block (memcpy (d.b_data block) offset src s to_copy) d in
    let left = remaining - to_copy in
    let next = next_block n block in
    elim (remaining == 0) [
      | true ↦ (ok (place block end_offset), d)
      | false ↦ elim (left == 0) [
        | true ↦ write_loop E n bs fuel src (s + to_copy) block offset left (offset + to_copy) d'
        | false ↦ elim (E.readable next) [
          | true ↦
              write_loop E n bs fuel src (s + to_copy) next block_header_size left
                (offset + to_copy) d'
          | false ↦ (err (E.bread_errno next), d')
        ]
      ]
    ]

-- The reading loop: `remaining` bytes from `block` and `offset` on go to `dest` from its byte `at`
-- on. The result is `dest` and the block that the loop stands in at its end.
unfoldable pub read_loop :
    (E : Env) (n bs : ℕ) (d : Disk) (fuel : ℕ) (dest : Memory) (at block offset remaining : ℕ)
    → Result (Memory × ℕ)
read_loop E n bs d zero dest at block offset remaining = hangs
read_loop E n bs d (suc fuel) dest at block offset remaining =
    let to_copy = min (sub32 bs offset) remaining in
    let dest' = memcpy dest at (d.b_data block) offset to_copy in
    let offset' = (offset + to_copy) % bs in
    let left = remaining - to_copy in
    let next = next_block n block in
    elim (remaining == 0) [
      | true ↦ ok (dest, block)
      | false ↦ elim ((offset' == 0) && not (left == 0)) [
        | false ↦ read_loop E n bs d fuel dest' (at + to_copy) block offset' left
        | true ↦ elim (E.readable next) [
          | true ↦ read_loop E n bs d fuel dest' (at + to_copy) next block_header_size left
          | false ↦ err eio
        ]
      ]
    ]

-- An entry at a place: its header, which is not split over blocks, and behind it the rest of its
-- `d_size` bytes, over further blocks where it is. The offset is a `__u16`. A `d_size` below the size
-- of the header makes `remaining` negative, which fetches nothing more.
unfoldable pub fetch_entry :
    (E : Env) (n bs : ℕ) (d : Disk) (block offset : ℕ) → Result (Memory × ℕ)
unfolding read_loop
fetch_entry E n bs d block offset =
    let de = memcpy zeroed 0 (d.b_data block) offset header_size in
    let remaining = d_size de - header_size in
    read_loop E n bs d (remaining + 2) de header_size block ((offset + header_size) % 2 ^ 16)
      remaining

-- ===== src/Undel/Ioctl.antt =====
-- ext3u/ioctl.c, the undelete commands: `ext3u_do_uls` and `ext3u_do_ustats`. The commands get and
-- return the structures of undel.h; the copies from and to user space are not modelled. `u_ll` and what is computed
-- from it are `int`s as their 32 bits, the other `int` fields of a request are not negative, and `fill` does not
-- come to 2 ^ 31.
pub mod Room
pub mod Bounds
pub mod Bytes
pub mod Round
pub mod Lists
use ext3u.Common.{
  ℕ, zero, suc, ◌+◌, ◌-◌, ◌*◌, ◌%◌, ◌^◌, Bool, true, false, ◌&&◌, ◌||◌, not, ◌==◌, ltb, leb,
  if◌then◌else◌, Memory, zeroed, get, put, memcpy, Result, ok, err, hangs, eio, enomem,
}
use ext3u.Undel.Layout.{
  Record, FifoInfo, DelInfo, SuperBlock, InodeLayout, header_size, entry_size, d_size, d_next,
  d_path_length, d_uid, d_mode, d_inode_i_size,
}
use ext3u.Undel.Disk.{Disk, Env}
use ext3u.Undel.Copy.{read_loop}
use ext3u.Undel.Search.{permission}

-- `struct ext3u_ustats_info`.
pub record UstatsInfo : Type 0 where
  pub u_errcode : ℕ
  pub u_block_size : ℕ
  pub u_inode_size : ℕ
  pub u_fifo_blocks : ℕ
  pub u_max_size : ℕ
  pub u_current_size : ℕ
  pub u_fifo_free : ℕ
  pub u_file_count : ℕ
  pub u_dir_count : ℕ

-- `ext3u_do_ustats`; `undel_dir` says whether the undelete inode is there. The error number stands in
-- `u_errcode` without its sign, and is returned.
pub do_ustats : Env → (undel_dir : Bool) → Disk → UstatsInfo → UstatsInfo
do_ustats E undel_dir d info =
    if not undel_dir
    then record info { u_errcode = eio }
    else if not (E.readable 0)
    then record info { u_errcode = eio }
    else record {
      u_errcode = 0;
      u_block_size = d.usb.s_block_size;
      u_inode_size = d.usb.s_inode_size;
      u_fifo_blocks = d.usb.s_fifo.f_blocks;
      u_max_size = d.usb.s_del.d_max_size;
      u_current_size = d.usb.s_del.d_current_size;
      u_fifo_free = d.usb.s_fifo_free;
      u_file_count = d.usb.s_del.d_file_count;
      u_dir_count = d.usb.s_del.d_dir_count;
    }

-- `struct ext3u_uls_info`; the record `u_next_record` by its two fields that are used.
pub record UlsInfo : Type 0 where
  pub u_buffer : Memory
  pub u_buffer_length : ℕ
  pub u_max_files : ℕ
  pub u_read_files : ℕ
  pub u_files : ℕ
  pub u_errcode : ℕ
  pub u_ll : ℕ
  pub u_next_block : ℕ
  pub u_next_offset : ℕ

-- The fields of the inode of an entry that a long listing shows, as the kernel's header places them.
pub record InodeFields : Type 0 where
  pub i_mtime : Memory → ℕ
  pub i_mode : Memory → ℕ
  pub i_uid : Memory → ℕ
  pub i_gid : Memory → ℕ
  pub i_links_count : Memory → ℕ

-- The sizes of `struct ext3u_uls_entry`, of its part beyond an `int`, and of an `int`.
abbrev pub uls_entry_bytes : ℕ
uls_entry_bytes = 40

abbrev pub ull_entry_size : ℕ
ull_entry_size = 36

abbrev pub uls_entry_size : ℕ
uls_entry_size = 4

-- The entry of a long listing; `stack` is what stood in the local structure before.
pub uls_entry : InodeLayout → InodeFields → (stack de : Memory) → Memory
uls_entry L F stack de = put 4 36 (F.i_links_count de) (
    put 2 32 (F.i_gid de) (
      put 2 30 (F.i_uid de) (
        put 2 28 (F.i_mode de) (
          put 4 24 (d_inode_i_size L de)
            (put 8 8 (F.i_mtime de) (put 2 0 (d_path_length de) stack))))))

-- The comparison of two `int`s by their 32 bits.
abbrev pub int_lt : (a b : ℕ) → Bool
int_lt a b = ltb ((a + 2 ^ 31) % 2 ^ 32) ((b + 2 ^ 31) % 2 ^ 32)

-- The room that an entry needs in the buffer, a `size_t` stored in an `int`.
unfoldable pub needed : (u_ll : ℕ) (de : Memory) → ℕ
needed u_ll de = (uls_entry_size + (d_path_length de + 1) + u_ll * ull_entry_size) % 2 ^ 32

-- What stands before the path in the buffer: the attributes of a long listing, or the path's length.
abbrev pub info_size : (u_ll : ℕ) → ℕ
info_size u_ll = if u_ll == 1 then uls_entry_bytes else 2

pub put_info : InodeLayout → InodeFields → (stack de : Memory) (u_ll fill : ℕ) → Memory → Memory
put_info L F stack de u_ll fill buffer =
    if u_ll == 1
    then memcpy buffer fill (uls_entry L F stack de) 0 uls_entry_bytes
    else memcpy buffer fill de 64 2

-- An entry put into the buffer, from byte `fill` on; its path with the NUL comes last.
pub put_listing : InodeLayout → InodeFields → (stack de : Memory) (u_ll fill : ℕ) → Memory → Memory
unfolding put_info
put_listing L F stack de u_ll fill buffer =
    memcpy (put_info L F stack de u_ll fill buffer) (fill + info_size u_ll) de (entry_size L)
      (d_path_length de + 1)

-- What the loop does behind an entry.
pub data Next : Type 0 where
  stop : (info : UlsInfo) → Next
  fails : (error : ℕ) (info : UlsInfo) → Next
  goes : (block offset fill remaining : ℕ) (info : UlsInfo) → Next
  no_end : Next

abbrev pub next_record : (block offset : ℕ) → UlsInfo → UlsInfo
next_record block offset info = record info { u_next_block = block; u_next_offset = offset }

-- The step to the next entry, with the buffer of `from` in hand.
pub go_next : Env → (de : Memory) (from fill remaining : ℕ) → UlsInfo → Next
go_next E de from fill remaining info =
    let next = d_next de in
    if (next.r_block == 0) && (next.r_offset == 0)
    then stop (next_record 0 0 info)
    else if not (next.r_block == from) && not (E.readable next.r_block)
    then fails eio info
    else goes next.r_block next.r_offset fill remaining info

-- The entry listed: the rest of it is read, and it is put into the buffer. `left` is what remains of the
-- buffer behind it.
pub list_entry :
    InodeLayout
    → InodeFields
    → Env
    → (stack : Memory) → (from : ℕ) (de : Memory) (fill left : ℕ) → UlsInfo
    → Next
unfolding put_listing go_next
list_entry L F E stack from de fill left info =
    let buffer = put_listing L F stack de info.u_ll fill info.u_buffer in
    let fill' = fill + info_size info.u_ll + (d_path_length de + 1) in
    let info₁ = record info { u_buffer = buffer; u_files = info.u_files + 1 } in
    let read = info.u_read_files + 1 in
    let info₂ = record info₁ { u_read_files = read } in
    if ltb 0 info.u_max_files
    then if leb info.u_max_files read
      then stop (next_record 0 0 info₂)
      else if left == 0
      then stop (next_record (d_next de).r_block (d_next de).r_offset info₂)
      else go_next E de from fill' left info₂
    else if left == 0
    then stop (next_record (d_next de).r_block (d_next de).r_offset info₁)
    else go_next E de from fill' left info₁

-- A round of the loop of `ext3u_do_uls` at the entry at `block` and `offset`. An entry of another user is
-- passed over, and only its header is read.
pub uls_round :
    InodeLayout
    → InodeFields
    → Env
    → (fsuid : ℕ) (stack : Memory) → Disk
    → (bs : ℕ) (block offset fill remaining : ℕ) → UlsInfo
    → Next
unfolding list_entry go_next needed
uls_round L F E fsuid stack d bs block offset fill remaining info =
    let head = memcpy zeroed 0 (d.b_data block) offset header_size in
    let room = needed info.u_ll head in
    let rest = d_size head - header_size in
    if int_lt info.u_buffer_length room
    then fails enomem
        (next_record block offset (record info { u_buffer_length = room; u_files = 0 }))
    else if int_lt remaining room
    then stop (next_record block offset info)
    else elim (permission fsuid (d_uid head) (d_mode head) 2) [
      | err e ↦ go_next E head block fill remaining info
      | hangs ↦ no_end
      | ok x ↦
          elim (read_loop E d.usb.s_fifo.f_blocks bs d (rest + 2) head header_size block
            ((offset + header_size) % 2 ^ 16) rest) [
              | ok (de, from) ↦
                  list_entry L F E stack from de fill ((remaining + 2 ^ 32 - room) % 2 ^ 32) info
              | err e ↦ fails e info
              | hangs ↦ no_end
            ]
    ]

-- The loop, on fuel, and the error with which it ends, 0 for none.
pub uls_loop :
    InodeLayout
    → InodeFields
    → Env
    → (fsuid : ℕ) (stack : Memory) → Disk
    → (bs fuel : ℕ) (block offset fill remaining : ℕ) → UlsInfo
    → Result ℕ × UlsInfo
uls_loop L F E fsuid stack d bs zero block offset fill remaining info = (hangs, info)
uls_loop L F E fsuid stack d bs (suc fuel) block offset fill remaining info =
    elim (uls_round L F E fsuid stack d bs block offset fill remaining info) [
      | stop info' ↦ (ok 0, info')
      | fails e info' ↦ (ok e, info')
      | no_end ↦ (hangs, info)
      | goes block' offset' fill' remaining' info' ↦
          uls_loop L F E fsuid stack d bs fuel block' offset' fill' remaining' info'
    ]

-- The end of `ext3u_do_uls`: the error number stands in `u_errcode` too.
pub finish : Result ℕ × UlsInfo → Result ℕ × UlsInfo
finish (ok e, info) = (ok e, record info { u_errcode = e })
finish (err e, info) = (err e, info)
finish (hangs, info) = (hangs, info)

-- `ext3u_do_uls`: the error number is returned without its sign. The rounds are as many as the
-- list has entries from the start on, on a list that ends.
unfoldable pub do_uls :
    InodeLayout
    → InodeFields
    → Env
    → (undel_dir : Bool) (fsuid : ℕ) (stack : Memory) → Disk
    → (bs fuel : ℕ) → UlsInfo
    → Result ℕ × UlsInfo
unfolding uls_loop finish
do_uls L F E undel_dir fsuid stack d bs fuel info =
    let fresh = (info.u_next_block == 0) && (info.u_next_offset == 0) in
    let first = d.usb.s_fifo.f_first in
    let block = if fresh then first.r_block else info.u_next_block in
    let offset = if fresh then first.r_offset else info.u_next_offset in
    let info₀ = record info { u_files = 0 } in
    if not undel_dir || not (E.readable 0)
    then finish (ok eio, info)
    else if fresh && (d.usb.s_del.d_file_count == 0)
    then finish (ok 0, info₀)
    else if not (E.readable block)
    then finish (ok eio, info₀)
    else finish (uls_loop L F E fsuid stack d bs fuel block offset 0 info.u_buffer_length info₀)

-- ===== src/Undel/Layout.antt =====
-- ext3u/undel.h: the structures of the undelete list. The superblock is the record that the code
-- casts block 0 to. A deleted entry is kept as its bytes, since it is copied to and from blocks by
-- memcpy, and its fields are read at their offsets under the x86-64 layout. `struct ext3_inode` is
-- declared in a kernel header, so its size and the place of `i_size` in it are parameters.
use ext3u.Common.{ℕ, ◌+◌, ◌-◌, ◌%◌, ◌^◌, Bool, Memory, get, put, ◌==◌}

-- `struct ext3u_record`, a pointer to an entry of the list.
pub record Record : Type 0 where
  pub r_block : ℕ
  pub r_real_block : ℕ
  pub r_offset : ℕ
  pub r_size : ℕ

-- `struct ext3u_fifo_info`.
pub record FifoInfo : Type 0 where
  pub f_blocks : ℕ
  pub f_start_block : ℕ
  pub f_last_block : ℕ
  pub f_last_offset : ℕ
  pub f_last_block_remaining : ℕ
  pub f_free : ℕ
  pub f_first : Record
  pub f_last : Record

-- `struct ext3u_del_info`.
pub record DelInfo : Type 0 where
  pub d_max_size : ℕ
  pub d_max_filesize : ℕ
  pub d_current_size : ℕ
  pub d_file_count : ℕ
  pub d_dir_count : ℕ

-- `struct ext3u_skip_info`.
pub record SkipInfo : Type 0 where
  pub s_dir_count : ℕ
  pub s_filext_size : ℕ
  pub s_filext_count : ℕ
  pub s_current_size : ℕ
  pub s_size : ℕ

-- `struct ext3u_super_block`.
pub record SuperBlock : Type 0 where
  pub s_flags : ℕ
  pub s_block_size : ℕ
  pub s_inode_size : ℕ
  pub s_fifo_free : ℕ
  pub s_block_count : ℕ
  pub s_low_watermark : ℕ
  pub s_high_watermark : ℕ
  pub s_del : DelInfo
  pub s_fifo : FifoInfo
  pub s_skip : SkipInfo

-- `EXT3u_FIFO_NULL`, `EXT3u_FIFO_EMPTY`, `EXT3u_BLOCK_HEADER_SIZE`.
abbrev pub fifo_null : Record → Bool
fifo_null r = r.r_offset == 0

abbrev pub fifo_empty : SuperBlock → Bool
fifo_empty usb = fifo_null usb.s_fifo.f_first

abbrev pub block_header_size : ℕ
block_header_size = 4

abbrev pub null_record : Record
null_record = record { r_block = 0; r_real_block = 0; r_offset = 0; r_size = 0 }

-- Unsigned 32-bit subtraction, which wraps.
abbrev pub sub32 : ℕ → ℕ → ℕ
sub32 a b = (a + 2 ^ 32 - b) % 2 ^ 32

-- A `struct ext3u_record` at an offset of some memory: fields of 4, 8, 2 and 2 bytes.
unfoldable pub get_record : ℕ → Memory → Record
get_record at m = record {
  r_block = get 4 at m;
  r_real_block = get 8 (at + 8) m;
  r_offset = get 2 (at + 16) m;
  r_size = get 2 (at + 18) m;
}

-- The four assignments that set such a record.
unfoldable pub put_record : ℕ → Record → Memory → Memory
put_record at r m =
    put 2 (at + 18) r.r_size
      (put 2 (at + 16) r.r_offset (put 8 (at + 8) r.r_real_block (put 4 at r.r_block m)))

-- The fields of `struct ext3u_del_entry`, and of its header where the two agree.
abbrev pub d_size : Memory → ℕ
d_size m = get 2 0 m

abbrev pub d_next_at : ℕ
d_next_at = 8

abbrev pub d_previous_at : ℕ
d_previous_at = 32

abbrev pub d_next : Memory → Record
d_next m = get_record d_next_at m

abbrev pub d_previous : Memory → Record
d_previous m = get_record d_previous_at m

abbrev pub d_hash : Memory → ℕ
d_hash m = get 4 60 m

abbrev pub d_path_length : Memory → ℕ
d_path_length m = get 2 64 m

abbrev pub d_mode : Memory → ℕ
d_mode m = get 2 66 m

abbrev pub d_uid : Memory → ℕ
d_uid m = get 2 68 m

-- `EXT3u_DEL_HEADER_SIZE`; the inode follows the header, and the path follows the inode.
abbrev pub header_size : ℕ
header_size = 72

-- What the kernel's header says of `struct ext3_inode`.
pub record InodeLayout : Type 0 where
  pub inode_bytes : ℕ
  pub i_size_at : ℕ

-- `EXT3u_DEL_ENTRY_SIZE`, which is `EXT3u_WRITE_MIN` as well.
abbrev pub entry_size : InodeLayout → ℕ
entry_size L = header_size + L.inode_bytes

-- `de->d_inode.i_size`, 32 bits.
abbrev pub d_inode_i_size : InodeLayout → Memory → ℕ
d_inode_i_size L m = get 4 (header_size + L.i_size_at) m

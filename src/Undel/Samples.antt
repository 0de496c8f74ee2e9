-- ===== src/Undel/Samples.antt =====
-- Undelete files for the theorems at concrete inputs: one with a single entry, one with a path's length in it,
-- and one whose two entries stand in two blocks.
use ext3u.Common.{
  ℕ, ◌+◌, ◌<◌, ◌≤◌, arith, ◌≡◌, refl, ok, ◌==◌, if◌then◌else◌, true, [], ◌∷◌, Memory, zeroed, get,
  put, put-bytes, memcpy, memcpy-bytes,
}
use ext3u.Undel.Layout.{
  SuperBlock, InodeLayout, Record, put_record, get_record, d_uid, d_mode, d_path_length,
}
use ext3u.Undel.Ring.{place, InRing}
use ext3u.Undel.Disk.{Disk, Env}
use ext3u.Undel.Ioctl.{InodeFields}
use ext3u.Undel.Ioctl.Round.{room_of}
use ext3u.Undel.Copy.{fetch_entry, read_loop}
use ext3u.Undel.Search.{permission}
use ext3u.Undel.Search.Found.{Listed}

abbrev pub test_env : Env
test_env = record {
  readable = λ b. true;
  bread_errno = λ b. 5;
  b_blocknr = λ b. b + 100;
  journal = true;
  journal_errno = 0;
}

abbrev pub test_layout : InodeLayout
test_layout = record { inode_bytes = 4; i_size_at = 0 }

-- Three blocks of 128 bytes, one entry at the start of the first.
abbrev pub test_usb : SuperBlock
test_usb = record {
  s_flags = 0;
  s_block_size = 128;
  s_inode_size = 128;
  s_fifo_free = 0;
  s_block_count = 0;
  s_low_watermark = 0;
  s_high_watermark = 0;
  s_del = record {
    d_max_size = 1000;
    d_max_filesize = 0;
    d_current_size = 10;
    d_file_count = 1;
    d_dir_count = 0;
  };
  s_fifo = record {
    f_blocks = 3;
    f_start_block = 1;
    f_last_block = 2;
    f_last_offset = 4;
    f_last_block_remaining = 0;
    f_free = 248;
    f_first = record { r_block = 1; r_real_block = 101; r_offset = 4; r_size = 79 };
    f_last = record { r_block = 1; r_real_block = 101; r_offset = 4; r_size = 79 };
  };
  s_skip = record {
    s_dir_count = 0;
    s_filext_size = 0;
    s_filext_count = 0;
    s_current_size = 0;
    s_size = 0;
  };
}

-- The block of an entry with the path "/a" and the hash 9.
abbrev pub test_block : Memory
test_block = put 2 4 79 (put 4 64 9 (put 1 80 b'/' (put 1 81 b'a' zeroed)))

abbrev pub test_disk : Disk
test_disk = record { usb = test_usb; b_data = λ b. test_block }

abbrev pub test_fields : InodeFields
test_fields = record {
  i_mtime = get 4 80;
  i_mode = get 2 72;
  i_uid = get 2 74;
  i_gid = get 2 74;
  i_links_count = get 2 74;
}

-- The same block with the length of the path, and its entry as it is read.
abbrev pub path_block : Memory
path_block = put 2 68 2 test_block

abbrev pub path_disk : Disk
path_disk = record { usb = test_usb; b_data = λ b. path_block }

abbrev pub path_entry : Memory
path_entry = memcpy (memcpy zeroed 0 path_block 4 72) 72 path_block 76 7

-- Two entries, at the starts of the blocks 1 and 2.
abbrev pub first_record : Record
first_record = record { r_block = 1; r_real_block = 101; r_offset = 4; r_size = 79 }

abbrev pub second_record : Record
second_record = record { r_block = 2; r_real_block = 102; r_offset = 4; r_size = 79 }

abbrev pub first_block : Memory
first_block = put_record 12 second_record (put 2 68 2 test_block)

abbrev pub second_block : Memory
second_block = put_record 36 first_record test_block

abbrev pub two_disk : Disk
two_disk = record { usb = test_usb; b_data = λ b. if b == 1 then first_block else second_block }

-- The header of the first one.
abbrev pub first_header : Memory
first_header i = first_block (i + 4)

pub test_block-bytes : (i : ℕ) → test_block i < 256
test_block-bytes =
    put-bytes 2 4 79 _
      (put-bytes 4 64 9 _ (put-bytes 1 80 b'/' _ (put-bytes 1 81 b'a' _ (λ i. omega arith))))

pub path_entry-bytes : (i : ℕ) → path_entry i < 256
path_entry-bytes =
    memcpy-bytes _ 72 path_block 76 7
      (memcpy-bytes zeroed 0 path_block 4 72 (λ i. omega arith) path_block-bytes) path_block-bytes
  where
    path_block-bytes : (i : ℕ) → path_block i < 256
    path_block-bytes = put-bytes 2 68 2 _ test_block-bytes

pub in_ring : (b o : ℕ) → 1 ≤ b → b ≤ 3 → 4 ≤ o → o < 128 → InRing 3 128 (place b o)
in_ring b o p q r s = record { block_low = p; block_high = q; offset_low = r; offset_high = s }

-- The list of the one entry, as the kernel reads it.
pub path_stored : Listed test_env path_disk 1 4 (path_entry ∷ [])
unfolding fetch_entry read_loop get put memcpy get_record
path_stored = (
  (λ e. omega (arith, e)),
  (λ e. omega (arith, e)),
  refl,
  refl,
  record { from = 1; fetched = refl },
  (refl, refl),
)

pub path_permitted : permission 0 (d_uid path_entry) (d_mode path_entry) 2 ≡ ok tt
unfolding permission
path_permitted = refl

pub path_length : d_path_length path_entry ≡ 2
unfolding get put memcpy
path_length = refl

pub path_room : room_of 0 (path_entry ∷ []) ≤ 60
path_room = omega (arith, path_length)

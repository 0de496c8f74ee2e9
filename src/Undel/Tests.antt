-- ===== src/Undel/Tests.antt =====
-- The theorems on the undelete list at concrete inputs.
use ext3u.Common.{
  ℕ, zero, suc, ◌+◌, ◌%◌, ◌^◌, ◌<◌, ◌≡◌, ◌↔◌, refl, ◌≢◌, ◌⊎◌, true, ◌==◌, List, [], ◌∷◌, ◌++◌,
  length, some, Memory, zeroed, get, put, get-put, memcpy, ok, arith,
}
use ext3u.Undel.Layout.{
  null_record, get_record, d_next, d_size, entry_size, d_hash, d_uid, d_path_length,
}
use ext3u.Undel.Samples.{
  test_env, test_layout, test_usb, test_block, test_block-bytes, test_disk, test_fields, in_ring,
}
use ext3u.Undel.Ring.{Place, place, IsRing, walk}
use ext3u.Undel.Disk.{byte_at}
use ext3u.Undel.Copy.{write_loop, read_loop, fetch_entry}
use ext3u.Undel.Copy.Written.{end_of}
use ext3u.Undel.Copy.RoundTrip.{Agrees, write-fetch}
use ext3u.Undel.Search.{get_entry, strncmp_equal}
use ext3u.Undel.Search.Found.{find_path, get_entry-find}
use ext3u.Undel.Super.{distance_loop, update_superblock, update_delete, uncount, with_fifo}
use ext3u.Undel.Super.Distance.{distance, distance_loop-distance}
use ext3u.Undel.Super.Delete.{at_record, update_superblock-first, update_superblock-only}
use ext3u.Undel.Ioctl.{UlsInfo, do_uls}
use ext3u.Undel.Ioctl.Bounds.{Same, do_uls-Same}
use ext3u.Undel.Skip.{skip_file, skip_file_code}
use ext3u.Undel.Skip.Rules.{Skipped, skip_file-absolute}
use ext3u.Undel.Hash.{hash}
use ext3u.Undel.Hash.Width.{weight, hash-weight}
use ext3u.Undel.Path.{dentry, null, get_full_path, get_file_name, prepend, path_max}
use ext3u.Undel.Path.Join.{HasPath, root, below, get_full_path-get_file_name, prepend-overflow}
use ext3u.Undel.Save.{File, fill_entry}
use ext3u.Undel.Save.Entry.{fill_entry-fields}
use ext3u.Undel.Restore.{Tree, lookup}
use ext3u.Undel.Restore.Lookup.{Found, lookup-Found}

abbrev test_ring : IsRing 3 128
test_ring = record { some_block = omega arith; some_room = omega arith }

-- An entry of 150 bytes, which goes over the end of a block.
abbrev long_entry : Memory
long_entry = put 2 0 150 (λ i. 7)

write-fetch_example :
    let (r, d') = write_loop test_env 3 128 151 long_entry 0 3 20 150 0 test_disk in
    (r ≡ ok (end_of 3 128 (place 3 20) 150 0))
    × Agrees long_entry 150 (fetch_entry test_env 3 128 d' 3 20)
    × ((q : Place)
        → ((k : ℕ) → k < 150 → walk 3 128 k (place 3 20) ≢ q)
        → byte_at d' q ≡ byte_at test_disk q)
write-fetch_example =
    write-fetch test_env long_entry 3 20 150 151 test_disk test_ring (omega arith) (λ b p q. refl)
      (in_ring 3 20 (omega arith) (omega arith) (omega arith) (omega arith)) (omega arith)
      (get-put 2 0 150 (λ i. 7) (omega arith)) (omega arith) (omega arith) (omega arith)

-- The entry of the test block, as it is read.
abbrev test_entry : Memory
test_entry = memcpy (memcpy zeroed 0 test_block 4 72) 72 test_block 76 7

abbrev test_path : List ℕ
test_path = b'/' ∷ b'a' ∷ []

get_entry-find_example :
    get_entry test_layout test_env (λ p. 9) 0 test_path test_disk
    ≡ find_path test_layout 0 test_path 0 (test_entry ∷ [])
unfolding fetch_entry read_loop get put memcpy get_record
get_entry-find_example =
    get_entry-find test_layout test_env (λ p. 9) 0 test_path test_disk (test_entry ∷ []) refl refl
      (
        (λ e. omega (arith, e)),
        (λ e. omega (arith, e)),
        refl,
        refl,
        record { from = 1; fetched = refl },
        (refl, refl),
      )
      ((λ h. refl), tt)

distance_loop-distance_example :
    distance_loop 3 128 260 3 100 1 20 0 ≡ ok (0 + distance 3 128 (place 3 100) (place 1 20))
distance_loop-distance_example =
    distance_loop-distance test_ring 260 (place 3 100) (place 1 20) 0
      (in_ring 3 100 (omega arith) (omega arith) (omega arith) (omega arith))
      (in_ring 1 20 (omega arith) (omega arith) (omega arith) (omega arith)) (omega arith)

-- A request for a long listing into 60 bytes.
abbrev test_request : UlsInfo
test_request = record {
  u_buffer = zeroed;
  u_buffer_length = 60;
  u_max_files = 0;
  u_read_files = 0;
  u_files = 0;
  u_errcode = 0;
  u_ll = 1;
  u_next_block = 0;
  u_next_offset = 0;
}

do_uls-Same_example :
    Same 60 zeroed
      (do_uls test_layout test_fields test_env true 0 zeroed test_disk 128 5
        test_request).1.u_buffer
do_uls-Same_example =
    do_uls-Same test_layout test_fields test_env true 0 zeroed test_disk 128 5 test_request
      (λ b. test_block-bytes) (omega arith) (omega arith)

-- The root directory's dentry, and "/d" below it.
abbrev test_root : HasPath (dentry (b'/' ∷ []) null) []
test_root = root refl

get_full_path-get_file_name_example :
    (get_full_path true (b'a' ∷ []) (dentry (b'd' ∷ []) (dentry (b'/' ∷ []) null))
      ≡ ok ((b'/' ∷ b'd' ∷ []) ++ (b'/' ∷ b'a' ∷ []), 1))
    × (get_file_name ((b'/' ∷ b'd' ∷ []) ++ (b'/' ∷ b'a' ∷ []))
        ≡ some (b'/' ∷ b'd' ∷ [], b'a' ∷ []))
get_full_path-get_file_name_example =
    get_full_path-get_file_name (b'a' ∷ []) (below refl test_root refl) refl
      ((λ e. omega (arith, e)), tt) (omega arith)

-- A file in a directory whose name only begins like the one of the rule.
abbrev temporal : List ℕ
temporal = b't' ∷ b'e' ∷ b'm' ∷ b'p' ∷ b'o' ∷ b'/' ∷ b'a' ∷ []

skip_file-absolute_example :
    ((skip_file (b'/' ∷ temporal) ≡ some skip_file_code) × Skipped (b'/' ∷ temporal))
    ⊎ ((skip_file (b'/' ∷ temporal) ≡ some 0) × (¬ Skipped (b'/' ∷ temporal)))
skip_file-absolute_example = skip_file-absolute temporal

hash-weight_example :
    (hash (2 ^ 64) temporal (length temporal) ≡ weight temporal 0 % 2 ^ 32)
    × (hash (2 ^ 32) temporal (length temporal) ≡ weight temporal 0 % 2 ^ 32)
hash-weight_example = hash-weight temporal

-- `n` times the character "a".
abbrev many : ℕ → List ℕ
many zero = []
many (suc n) = b'a' ∷ many n

prepend-overflow_example : length (prepend (many 100) (many 4000)) ≡ path_max + 1
prepend-overflow_example = prepend-overflow (many 100) (many 4000) (omega arith) (omega arith)

abbrev test_file : File
test_file = record { i_blocks = 0; i_size = 0; i_disksize = 0; i_uid = 1000; i_mode = 33188 }

fill_entry-fields_example :
    let de = fill_entry test_layout (λ p. 9) zeroed test_path test_file 1 in
    (d_hash de ≡ 9)
    × (strncmp_equal test_path de (entry_size test_layout) path_max ≡ true)
    × (d_uid de ≡ 1000)
    × (d_size de ≡ entry_size test_layout + 2 + 1)
    × (d_path_length de ≡ 2)
fill_entry-fields_example =
    fill_entry-fields test_layout (λ p. 9) zeroed test_path test_file 1 (omega arith) (omega arith)
      (omega arith)

-- The first entry, with another one behind it at offset 90.
abbrev first_entry : Memory
first_entry = put 2 8 1 (put 2 24 90 zeroed)

update_superblock-first_example :
    update_superblock test_layout test_usb first_entry update_delete
    ≡ ok (
        with_fifo (uncount test_layout test_usb first_entry) (record (test_usb.s_fifo) {
          f_first = d_next first_entry;
          f_free =
              (test_usb.s_fifo.f_free
                + distance 3 128
                    (at_record test_usb.s_fifo.f_first)
                    (at_record (d_next first_entry)))
              % 2 ^ 32;
        }))
unfolding get put get_record
update_superblock-first_example =
    update_superblock-first test_layout test_usb first_entry test_ring
      (in_ring 1 4 (omega arith) (omega arith) (omega arith) (omega arith))
      (in_ring 1 90 (omega arith) (omega arith) (omega arith) (omega arith)) refl

update_superblock-only_example :
    update_superblock test_layout test_usb zeroed update_delete
    ≡ ok (
        with_fifo (uncount test_layout test_usb zeroed) (record (test_usb.s_fifo) {
          f_first = null_record;
          f_last = null_record;
          f_last_offset = 0;
          f_free =
              (test_usb.s_fifo.f_free + (128 + distance 3 128 (place 1 4) (place 2 4))) % 2 ^ 32;
        }))
unfolding get get_record
update_superblock-only_example =
    update_superblock-only test_layout test_usb zeroed test_ring
      (in_ring 1 4 (omega arith) (omega arith) (omega arith) (omega arith))
      (in_ring 2 4 (omega arith) (omega arith) (omega arith) (omega arith)) (omega arith)
      (omega arith) refl refl

-- A root directory that the user may not write in, and in it the directory 11.
abbrev test_tree : Tree
test_tree = record {
  root_ino = 2;
  iget = λ i. true;
  may_exec = λ i. true;
  may_write = λ i. i == 11;
  ext3_find_entry = λ i name. some 11;
}

lookup-Found_example :
    (lookup test_tree (b'/' ∷ b'd' ∷ []) true ≡ (ok tt, true))
    ↔ Found test_tree (b'/' ∷ b'd' ∷ []) true true
lookup-Found_example = lookup-Found test_tree (b'/' ∷ b'd' ∷ []) true true

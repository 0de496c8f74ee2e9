-- ===== src/Undel/SaveTests.antt =====
-- The theorems on saving a file at a concrete file.
use ext3u.Common.{
  ℕ, ◌+◌, ◌<◌, ◌≡◌, refl, inr, true, false, List, [], ◌∷◌, ◌∙◌, Memory, zeroed, get, ok, arith,
}
use ext3u.Undel.Samples.{test_env, test_layout, test_usb, in_ring}
use ext3u.Undel.Layout.{SuperBlock, null_record, entry_size, d_size}
use ext3u.Undel.Disk.{Disk}
use ext3u.Undel.Path.{dentry, null, get_full_path}
use ext3u.Undel.Skip.{
  skip_file, check_skip_entry, check_extensions, is_star, ext_matches, dir_matches, dir_rest,
}
use ext3u.Undel.Room.{Freeing}
use ext3u.Undel.Search.{get_entry}
use ext3u.Undel.Save.{File, Request, Saving, fill_entry, link_last, save}
use ext3u.Undel.Save.Entry.{fill_entry-fields}
use ext3u.Undel.Save.First.{Begins}
use ext3u.Undel.Save.Again.{Stores, emptied, d_size-link_last, save-get_entry}

-- The superblock of a list without entries.
abbrev empty_usb : SuperBlock
empty_usb = record test_usb {
  s_del = record (test_usb.s_del) { d_file_count = 0; d_current_size = 0 };
  s_fifo = record (test_usb.s_fifo) {
    f_last_block = 1;
    f_last_offset = 4;
    f_first = null_record;
    f_last = null_record;
  };
}

abbrev pub empty_disk : Disk
empty_disk = record { usb = empty_usb; b_data = λ b. zeroed }

abbrev saved_file : File
saved_file = record { i_blocks = 8; i_size = 4000; i_disksize = 4000; i_uid = 1000; i_mode = 33188 }

abbrev saving : Saving
saving = record { file = saved_file; de_save = zeroed; disk = empty_disk }

-- The file "/d/a".
abbrev request : Request
request = record {
  incompatible = false;
  buffer = true;
  path_buffer = true;
  undel_dir = true;
  name = b'a' ∷ [];
  parent = dentry (b'd' ∷ []) (dentry (b'/' ∷ []) null);
  raw_inode = ok zeroed;
  type = 1;
}

abbrev freeing : Freeing
freeing = record { root_dir = true; enough = true; new_inode = λ k. ok tt }

abbrev saved_path : List ℕ
saved_path = b'/' ∷ b'd' ∷ b'/' ∷ b'a' ∷ []

abbrev pub saved_entry : Memory
saved_entry = fill_entry test_layout (λ p. 9) zeroed saved_path (emptied saved_file) 1

saved_size : d_size (link_last null_record saved_entry) ≡ 81
saved_size =
    d_size-link_last null_record saved_entry
    ∙ (fill_entry-fields test_layout (λ p. 9) zeroed saved_path (emptied saved_file) 1 (omega arith)
        (omega arith) (omega arith)).3

request-Stores : Stores test_layout request saving saved_path zeroed
unfolding get_full_path skip_file get check_skip_entry check_extensions is_star ext_matches
    dir_matches dir_rest
request-Stores = record {
  compatible = refl;
  buffer = refl;
  undel_dir = refl;
  within = refl;
  length_of_name = 1;
  full_path = refl;
  kept = refl;
  read = refl;
}

pub entry-Begins : Begins test_layout test_env empty_disk saved_entry
entry-Begins = record {
  super_readable = refl;
  journal = refl;
  readable = λ b p q. refl;
  ring = record { some_block = omega arith; some_room = omega arith };
  small = omega arith;
  inside = in_ring 1 4 (omega arith) (omega arith) (omega arith) (omega arith);
  room = omega arith;
  long = omega (arith, saved_size);
  fits = omega (arith, saved_size);
  first_none = refl;
  last_none = refl;
}

save-get_entry_example :
    let (r, s') = save test_layout (λ p. 9) test_env freeing request saving in
    (r ≡ ok 0)
    × (s'.file ≡ emptied saved_file)
    × (de : Memory) × ((i : ℕ)
        → i < entry_size test_layout + 4 + 1
        → de i ≡ link_last null_record saved_entry i)
    × (get_entry test_layout test_env (λ p. 9) 1000 saved_path s'.disk ≡ ok (de, 1))
save-get_entry_example =
    save-get_entry (λ p. 9) freeing request saving saved_path zeroed 1000 request-Stores
      entry-Begins refl (omega arith) (omega arith) (omega arith) (inr refl)

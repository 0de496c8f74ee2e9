-- ===== src/Undel/Urm/Tests.antt =====
-- The theorems on restoring a file at concrete inputs.
use ext3u.Common.{
  ℕ, zeroed, ◌+◌, ◌%◌, ◌^◌, ◌≤◌, ◌≡◌, refl, sym, ap, ◌∙◌, ◌≢◌, inl, inr, true, false, none, some,
  List, [], ◌∷◌, put, get, memcpy, Result, ok, err, hangs, enoent, arith,
}
use ext3u.Undel.Samples.{
  test_env, test_fields, test_layout, test_usb, path_block, path_disk, path_entry, path_entry-bytes,
  in_ring,
}
use ext3u.Undel.Path.{get_file_name, file_name_loop}
use ext3u.Undel.Restore.{Tree, RawInode, InodeSizes, lookup, lookup_loop, lookup_last, tokens}
use ext3u.Undel.Restore.Lookup.{Leads, arrived, stays, enters}
use ext3u.Undel.Vfs.{Vfs}
use ext3u.Undel.Target.{target_directory, target_loop}
use ext3u.Undel.Target.Existing.{Coherent, target_directory-Leads}
use ext3u.Undel.Create.{create, create_loop, attempt, should_retry, hashed}
use ext3u.Undel.Create.Ends.{create-returns}
use ext3u.Undel.Search.{get_entry, permission, strncmp_equal}
use ext3u.Undel.Search.Found.{find_path, get_entry-find}
use ext3u.Undel.Copy.{fetch_entry, read_loop}
use ext3u.Undel.Urm.{
  Setting, split_path, path_bytes, to_nul, choose_directory, may_restore, make_file, urm,
  find_and_restore,
}
use ext3u.Undel.Layout.{SuperBlock, null_record, d_next, d_previous, get_record}
use ext3u.Undel.Ring.{Place, place}
use ext3u.Undel.Disk.{Disk}
use ext3u.Undel.Super.{update_superblock, update_delete, uncount, with_fifo}
use ext3u.Undel.Super.Distance.{distance}
use ext3u.Undel.Super.Delete.{update_superblock-only}
use ext3u.Undel.Links.Chain.{Has, Linked}
use ext3u.Undel.Links.Fields.{next_of, prev_of, Headers, Apart}
use ext3u.Undel.Links.Unlink.{null_place}
use ext3u.Undel.Dispatch.{UrmInfo, Machine, urm_call, ext3_ioctl}
use ext3u.Undel.Dispatch.Reports.{ext3_ioctl-err}
use ext3u.Undel.Urm.Outcome.{Failed, urm-err}
use ext3u.Undel.Urm.Taken.{Restores, urm-Linked}

-- A root directory, and in it the directory 11, in which nothing is.
abbrev test_tree : Tree
test_tree = record {
  root_ino = 2;
  iget = λ i. true;
  may_exec = λ i. true;
  may_write = λ i. true;
  ext3_find_entry = λ i name. some 11;
}

-- Directories that do not change, with nothing in the cache.
abbrev test_vfs : Vfs (Unit {0})
test_vfs = record {
  tree = λ v. test_tree;
  d_lookup = λ v dir name. none;
  d_find_alias = λ v dir. true;
  d_alloc_root = λ v. true;
  allocates = λ v dir name. true;
  rehash = λ v dir name. tt;
  instantiate = λ v dir name ino. tt;
  ext3_mkdir = λ v dir name. (ok tt, tt);
  ext3_journal_start = λ v dir. ok tt;
  ext3_new_inode = λ v dir. (ok 12, tt);
  set_inode = λ v ino r. tt;
  ext3_add_nondir = λ v dir name ino. (ok tt, tt);
  has_free_blocks = λ v. true;
  commits = λ v. true;
}

abbrev test_sizes : InodeSizes
test_sizes = record {
  no_uid32 = false;
  first_ino = 11;
  inode_size = 128;
  good_old_inode_size = 128;
  sizeof_ext3_inode = 152;
}

abbrev test_raw : RawInode
test_raw = record {
  i_mode = 33188;
  i_uid_low = 0;
  i_gid_low = 0;
  i_uid_high = 0;
  i_gid_high = 0;
  i_size = 1;
  i_size_high = 0;
  i_atime = 0;
  i_ctime = 0;
  i_mtime = 0;
  i_dtime = 0;
  i_blocks = 0;
  i_flags = 0;
  i_file_acl = 0;
  i_generation = 0;
  i_block = [];
  i_extra_isize = 0;
  has_xattr_magic = false;
}

abbrev test_setting : Setting (Unit {0})
test_setting = record {
  layout = test_layout;
  env = test_env;
  vfs = test_vfs;
  sizes = test_sizes;
  raw = λ m. test_raw;
  hash = λ p. 9;
  fsuid = 0;
  undel_dir_ino = 7;
  super_again = true;
}

create-returns_example :
    (create test_vfs test_sizes (λ m. test_raw) tt 2 (b'a' ∷ []) path_entry).0 ≢ hangs
create-returns_example =
    create-returns test_sizes (λ m. test_raw)
      (record { starts = λ v dir h. cc; makes = λ v dir h. cc; enters = λ v dir name ino h. cc }) tt
      2 (b'a' ∷ []) path_entry

test-Coherent : Coherent test_vfs (λ v. Unit {0})
test-Coherent = record {
  cached = λ v dir name dentry g e. cc;
  memory = λ v dir name g. refl;
  stable = λ v dir name ino g e. refl;
  good = λ v dir name ino g e. tt;
}

abbrev test_way : Leads test_tree ([] ∷ (b'd' ∷ []) ∷ []) 2 11
test_way = stays (enters refl refl refl arrived)

target_directory-Leads_example :
    ((target_directory test_vfs (b'/' ∷ b'd' ∷ []) tt).0 ≡ ok 11)
    × (test_vfs.tree (target_directory test_vfs (b'/' ∷ b'd' ∷ []) tt).1 ≡ test_tree)
unfolding tokens
target_directory-Leads_example =
    target_directory-Leads test-Coherent tt (b'/' ∷ b'd' ∷ []) 11 tt refl test_way refl

abbrev test_path : List ℕ
test_path = b'/' ∷ b'a' ∷ []

-- The search for a path in the list of the one entry.
search-test :
    (path : List ℕ)
    → get_entry test_layout test_env (λ p. 9) 0 path path_disk
      ≡ find_path test_layout 0 path 0 (path_entry ∷ [])
unfolding fetch_entry read_loop get put memcpy get_record
search-test path =
    get_entry-find test_layout test_env (λ p. 9) 0 path path_disk (path_entry ∷ []) refl refl
      (
        (λ e. omega (arith, e)),
        (λ e. omega (arith, e)),
        refl,
        refl,
        record { from = 1; fetched = refl },
        (refl, refl),
      )
      ((λ h. refl), tt)

found-test : get_entry test_layout test_env (λ p. 9) 0 test_path path_disk ≡ ok (path_entry, 1)
unfolding find_path strncmp_equal permission get put memcpy
found-test = search-test test_path ∙ refl

missing-test : get_entry test_layout test_env (λ p. 9) 0 (b'/' ∷ b'b' ∷ []) path_disk ≡ err enoent
unfolding find_path strncmp_equal permission get put memcpy
missing-test = search-test (b'/' ∷ b'b' ∷ []) ∙ refl

not_found :
    {V : Type 0} (C : Setting V) (path : List ℕ) (v : V) (d : Disk) (e : ℕ)
    → get_entry C.layout C.env C.hash C.fsuid path d ≡ err e
    → (find_and_restore C path none v d).0 ≡ err e
unfolding find_and_restore
not_found C path v d e g = rw (g, find_and_restore) refl

-- A file that is not in the list.
missing_urm : (urm test_setting (b'/' ∷ b'b' ∷ []) none tt path_disk).0 ≡ err enoent
unfolding urm
missing_urm = not_found test_setting (b'/' ∷ b'b' ∷ []) tt path_disk enoent missing-test

urm-err_example :
    Failed test_setting path_disk
      (b'/' ∷ b'b' ∷ [])
      enoent
      (urm test_setting (b'/' ∷ b'b' ∷ []) none tt path_disk).2
urm-err_example = urm-err test_setting path_disk (b'/' ∷ b'b' ∷ []) none tt enoent missing_urm

-- The file "/a" goes back to its directory.
test-Restores : Restores test_setting path_disk test_path none tt tt path_entry
unfolding split_path path_bytes to_nul get_file_name file_name_loop choose_directory may_restore
    make_file lookup lookup_loop lookup_last tokens target_directory target_loop create create_loop
    attempt should_retry hashed get put memcpy
test-Restores = record {
  entries = 1;
  dir = [];
  name = b'a' ∷ [];
  dir_path = b'/' ∷ [];
  may_create = true;
  undel_dir = refl;
  journal = refl;
  found = found-test;
  split = refl;
  chosen = refl;
  allowed = refl;
  made = refl;
}

-- The superblock without the entry.
abbrev emptied : SuperBlock
emptied = with_fifo (uncount test_layout test_usb path_entry) (record (test_usb.s_fifo) {
  f_first = null_record;
  f_last = null_record;
  f_last_offset = 0;
  f_free = (test_usb.s_fifo.f_free + (128 + distance 3 128 (place 1 4) (place 2 4))) % 2 ^ 32;
})

test_updated : update_superblock test_layout test_usb path_entry update_delete ≡ ok emptied
unfolding get put memcpy get_record
test_updated =
    update_superblock-only test_layout test_usb path_entry
      (record { some_block = omega arith; some_room = omega arith })
      (in_ring 1 4 (omega arith) (omega arith) (omega arith) (omega arith))
      (in_ring 2 4 (omega arith) (omega arith) (omega arith) (omega arith)) (omega arith)
      (omega arith) refl refl

one-Headers : Headers test_env (place 1 4 ∷ [])
one-Headers = record { readable = λ q h. refl; low = low; apart = apart }
  where
    low : (q : Place) → Has q (place 1 4 ∷ []) → 4 ≤ q.offset
    low q (inl e) = omega (arith, ap (λ p. p.offset) e)
    low q (inr h) = absurd h

    apart : (p q : Place) → Has p (place 1 4 ∷ []) → Has q (place 1 4 ∷ []) → p ≢ q → Apart p q
    apart p q (inl e) (inl f) ne = absurd (ne (e ∙ sym f))
    apart p q (inr h) j ne = absurd h
    apart p q (inl e) (inr h) ne = absurd h

one-Linked : Linked (next_of path_disk) (prev_of path_disk) null_place (place 1 4 ∷ []) null_place
unfolding get put get_record
one-Linked = (refl, refl, tt)

told_next : get_record 12 path_block ≡ d_next path_entry
unfolding get put memcpy get_record
told_next = refl

told_previous : get_record 36 path_block ≡ d_previous path_entry
unfolding get put memcpy get_record
told_previous = refl

urm-Linked_example :
    let (r, v₁, d') = urm test_setting test_path none tt path_disk in
    (r ≡ ok tt)
    × (v₁ ≡ tt)
    × (d'.usb ≡ emptied)
    × Linked (next_of d') (prev_of d') null_place [] null_place
urm-Linked_example =
    urm-Linked test_setting path_disk test_path none tt tt path_entry emptied [] (place 1 4) []
      test-Restores refl test_updated path_entry-bytes one-Headers (λ h. h, tt) told_next
      told_previous one-Linked

abbrev test_machine : Machine
test_machine = record {
  incompat_undelete = false;
  fields = test_fields;
  stack = zeroed;
  rounds = 1;
  uncopied = 0;
  partial = λ before after. before;
}

abbrev missing_info : UrmInfo
missing_info = record { u_path = b'/' ∷ b'b' ∷ []; u_dpath = none; u_errcode = 0 }

ext3_ioctl-err_example :
    let (r, call, v', d') =
      ext3_ioctl test_setting test_machine (urm_call missing_info) tt path_disk in
    (r ≡ ok 0)
    × (call ≡ urm_call (record missing_info { u_errcode = enoent }))
    × Failed test_setting path_disk (b'/' ∷ b'b' ∷ []) enoent d'
ext3_ioctl-err_example =
    ext3_ioctl-err test_setting test_machine missing_info tt path_disk enoent refl missing_urm

abbrev code_of : Result (Unit {0}) → ℕ
code_of (ok x) = 0
code_of (err e) = e
code_of hangs = 0

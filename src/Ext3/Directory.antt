-- ===== src/Ext3/Directory.antt =====
-- ext3u/dir.c and ext3u/namei.c, a block of a directory: `ext3_check_dir_entry`, `ext3_match`,
-- `search_dirblock`, `add_dirent_to_buf` and `ext3_delete_entry`. A block is the list of its entries in their
-- order, each as long as its `rec_len` says, so that the offset of an entry is the sum of the lengths before
-- it. The types of the entries are not modelled, and the times of the directory neither.
pub mod Tiled
pub mod Added
pub mod Removed
use ext3u.Common.{
  ℕ, ◌+◌, ◌-◌, ◌%◌, Bool, true, false, ◌&&◌, not, ◌==◌, ltb, leb, if◌then◌else◌, List, [], ◌∷◌,
  length, Result, ok, err, hangs, eio, enoent, eexist,
}

abbrev pub enospc : ℕ
enospc = 28

pub record DirEntry : Type 0 where
  pub inode : ℕ
  pub rec_len : ℕ
  pub name : List ℕ

-- What the kernel's header and the superblock say: the length `EXT3_DIR_REC_LEN` of an entry by that of its
-- name, the size of a block, and the number of inodes.
pub record DirFormat : Type 0 where
  pub dir_rec_len : ℕ → ℕ
  pub s_blocksize : ℕ
  pub s_inodes_count : ℕ

-- `ext3_check_dir_entry` for the entry at an offset.
unfoldable pub check_dir_entry : DirFormat → (offset : ℕ) → DirEntry → Bool
check_dir_entry F offset de =
    leb (F.dir_rec_len 1) de.rec_len
    && (de.rec_len % 4 == 0)
    && leb (F.dir_rec_len (length de.name)) de.rec_len
    && leb (offset + de.rec_len) F.s_blocksize
    && leb de.inode F.s_inodes_count

-- `memcmp` of the two names is zero, where they have the same length.
unfoldable pub same_name : List ℕ → List ℕ → Bool
same_name [] [] = true
same_name [] (d ∷ t) = false
same_name (c ∷ s) [] = false
same_name (c ∷ s) (d ∷ t) = (c == d) && same_name s t

-- `ext3_match`.
unfoldable pub ext3_match : List ℕ → DirEntry → Bool
unfolding same_name
ext3_match name de = not (de.inode == 0) && same_name name de.name

-- What `search_dirblock` ends with: 1 and the entry, 0, or -1.
pub data Search : Type 0 where
  found : DirEntry → Search
  missing : Search
  bad : Search

-- `search_dirblock` from an offset on.
unfoldable pub search_dirblock : DirFormat → (name : List ℕ) (offset : ℕ) → List DirEntry → Search
unfolding ext3_match check_dir_entry
search_dirblock F name offset [] = missing
search_dirblock F name offset (de ∷ entries) =
    let rest = search_dirblock F name (offset + de.rec_len) entries in
    if leb (offset + length name) F.s_blocksize && ext3_match name de
    then if check_dir_entry F offset de then found de else bad
    else if de.rec_len == 0
    then bad
    else rest

-- The new entry at the place of one that has the room: behind it, if it is in use.
unfoldable pub put_dirent :
    DirFormat → (name : List ℕ) (ino : ℕ) → DirEntry → List DirEntry → List DirEntry
put_dirent F name ino de entries =
    let nlen = F.dir_rec_len (length de.name) in
    if de.inode == 0
    then record { inode = ino; rec_len = de.rec_len; name = name } ∷ entries
    else record de { rec_len = nlen }
      ∷ record { inode = ino; rec_len = de.rec_len - nlen; name = name }
      ∷ entries

-- `add_dirent_to_buf` without a given place; `access` is what `ext3_journal_get_write_access` returns.
unfoldable pub add_dirent_to_buf :
    DirFormat
    → (access : Result (Unit {0})) (name : List ℕ) (ino offset : ℕ) → List DirEntry
    → Result (List DirEntry)
unfolding check_dir_entry ext3_match put_dirent
add_dirent_to_buf F access name ino offset [] = err enospc
add_dirent_to_buf F access name ino offset (de ∷ entries) =
    let reclen = F.dir_rec_len (length name) in
    let nlen = F.dir_rec_len (length de.name) in
    let rest = add_dirent_to_buf F access name ino (offset + de.rec_len) entries in
    if ltb F.s_blocksize (offset + reclen)
    then err enospc
    else if not (check_dir_entry F offset de)
    then err eio
    else if ext3_match name de
    then err eexist
    else if leb reclen (if de.inode == 0 then de.rec_len else de.rec_len - nlen)
    then elim access [
      | ok x ↦ ok (put_dirent F name ino de entries)
      | err e ↦ err e
      | hangs ↦ hangs
    ]
    else elim rest [ ok more ↦ ok (de ∷ more) | err e ↦ err e | hangs ↦ hangs ]

-- The loop of `ext3_delete_entry` behind its first round; `pde` is the entry before.
unfoldable pub delete_loop :
    DirFormat → (at : ℕ) (pde : DirEntry) (offset : ℕ) → List DirEntry → Result (List DirEntry)
unfolding check_dir_entry
delete_loop F at pde offset [] = err enoent
delete_loop F at pde offset (de ∷ entries) =
    let rest = delete_loop F at de (offset + de.rec_len) entries in
    if not (check_dir_entry F offset de)
    then err eio
    else if offset == at
    then ok (record pde { rec_len = pde.rec_len + de.rec_len } ∷ entries)
    else elim rest [ ok more ↦ ok (pde ∷ more) | err e ↦ err e | hangs ↦ hangs ]

-- `ext3_delete_entry` of the entry that stands at the offset `at`.
unfoldable pub ext3_delete_entry : DirFormat → (at : ℕ) → List DirEntry → Result (List DirEntry)
unfolding check_dir_entry delete_loop
ext3_delete_entry F at [] = err enoent
ext3_delete_entry F at (de ∷ entries) =
    if not (check_dir_entry F 0 de)
    then err eio
    else if at == 0
    then ok (record de { inode = 0 } ∷ entries)
    else delete_loop F at de de.rec_len entries

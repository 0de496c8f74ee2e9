-- ===== src/Undel/Save.antt =====
-- ext3u/undel.c, a file saved before it is deleted: `ext3u_save`.
pub mod Entry
pub mod Begun
pub mod Ready
pub mod Linking
pub mod Appended
pub mod First
pub mod Again
use ext3u.Common.{
  ℕ, zero, suc, ◌+◌, ◌-◌, ◌%◌, ◌^◌, Bool, true, false, ◌&&◌, ◌||◌, not, ◌==◌, ltb, if◌then◌else◌,
  Option, none, some, List, [], ◌∷◌, length, get_or, Memory, zeroed, get, put, memcpy, Result, ok,
  err, hangs, eio, enoent, enomem,
}
use ext3u.Undel.Skip.{skip_file}
use ext3u.Undel.Path.{Dentry, get_full_path, path_max}
use ext3u.Undel.Layout.{
  Record, FifoInfo, DelInfo, SuperBlock, InodeLayout, null_record, fifo_null, fifo_empty, sub32,
  block_header_size, header_size, entry_size, d_size, d_inode_i_size, d_next_at, d_previous_at,
}
use ext3u.Undel.Ring.{Place, place, next_block}
use ext3u.Undel.Disk.{Disk, Env, M, and_then, set_block}
use ext3u.Undel.Copy.{write_loop}
use ext3u.Undel.Super.{update_superblock, update_delete, update_next, update_previous}
use ext3u.Undel.Room.{Freeing, with_usb, free_old_entries}
use ext3u.Undel.Links.{update_entry, delete_entry}
use ext3u.Undel.Search.{get_first_entry}

-- The file that is deleted, as far as the code changes it or reads it.
pub record File : Type 0 where
  pub i_blocks : ℕ
  pub i_size : ℕ
  pub i_disksize : ℕ
  pub i_uid : ℕ
  pub i_mode : ℕ

-- The path as the bytes of a C string.
abbrev pub chars : List ℕ → Memory
chars s i = get_or s i 0

-- The entry as `ext3u_save` fills it, before it is linked: the inode, the path, the hash, the owner, the
-- mode, the type and the size, in fields that cut what does not fit.
pub fill_entry :
    InodeLayout
    → (hash : List ℕ → ℕ) (raw_inode : Memory) (buf : List ℕ) (file : File) (type : ℕ) → Memory
fill_entry L hash raw_inode buf file type =
    let size = entry_size L + length buf + 1 in
    let de₁ = memcpy zeroed header_size raw_inode 0 L.inode_bytes in
    let de₂ = put 2 64 (length buf) de₁ in
    let de₃ = memcpy de₂ (entry_size L) (chars buf) 0 path_max in
    let de₄ = put 4 60 (hash buf) de₃ in
    let de₅ = put 2 68 file.i_uid de₄ in
    let de₆ = put 2 66 file.i_mode de₅ in put 2 0 size (put 2 56 type de₆)

-- The assignments to `r_block`, `r_offset` and `r_size` of a record; the code leaves `r_real_block`.
unfoldable pub put_link : ℕ → Record → Memory → Memory
put_link at r m = put 2 (at + 18) r.r_size (put 2 (at + 16) r.r_offset (put 4 at r.r_block m))

-- The new entry's links: behind the last one of the list.
unfoldable pub link_last : (last : Record) → Memory → Memory
link_last last de = put_link d_next_at null_record (put_link d_previous_at last de)

-- The record of the new entry, at the end of what is written.
abbrev pub here : Env → FifoInfo → (size : ℕ) → Record
here E fifo size = record {
  r_block = fifo.f_last_block;
  r_real_block = E.b_blocknr fifo.f_last_block;
  r_offset = fifo.f_last_offset % 2 ^ 16;
  r_size = size;
}

-- The list's first entry and the header of the block, set where there is none yet.
pub begin_entry : Env → (size : ℕ) → Disk → Disk
begin_entry E size d =
    let fifo = d.usb.s_fifo in
    let m = d.b_data fifo.f_last_block in
    let d₁ =
      if fifo_null fifo.f_first
      then with_usb (record (d.usb) { s_fifo = record fifo { f_first = here E fifo size } }) d
      else d in
    if get 4 0 m == 0 then set_block fifo.f_last_block (put 4 0 fifo.f_last_offset m) d₁ else d₁

-- The rest of a block that holds no header and inode is given up.
pub give_up_rest : InodeLayout → SuperBlock → Place → SuperBlock × Place
give_up_rest L usb end =
    let rest = sub32 usb.s_block_size end.offset in
    if ltb rest (entry_size L)
    then (
      record usb { s_fifo = record (usb.s_fifo) { f_free = sub32 (usb.s_fifo.f_free) rest } },
      place (next_block usb.s_fifo.f_blocks end.block) block_header_size,
    )
    else (usb, end)

-- The superblock's record of the new entry.
pub count_entry :
    InodeLayout → (update : Record) (new_entry : Memory) (end : Place) → SuperBlock → SuperBlock
count_entry L update new_entry end usb = record usb {
  s_fifo = record (usb.s_fifo) {
    f_last = update;
    f_last_block = end.block;
    f_last_offset = end.offset;
    f_free = sub32 (usb.s_fifo.f_free) (d_size new_entry);
  };
  s_del = record (usb.s_del) {
    d_file_count = (usb.s_del.d_file_count + 1) % 2 ^ 32;
    d_current_size = (usb.s_del.d_current_size + d_inode_i_size L new_entry) % 2 ^ 64;
  };
}

-- The end of `ext3u_save`, when the bytes of the entry stand in the list: the entry before it is linked,
-- and the superblock is brought up to date.
pub finish_entry :
    InodeLayout → Env → (update : Record) (new_entry : Memory) (end : Place) → M (Unit {0})
finish_entry L E update new_entry end d =
    let (usb, end') = give_up_rest L d.usb end in
    let d₁ = with_usb usb d in
    and_then
      (if fifo_null usb.s_fifo.f_last
        then (ok tt, d₁)
        else update_entry E false usb.s_fifo.f_last update update_next d₁)
      (λ x d₂. (ok tt, with_usb (count_entry L update new_entry end' d₂.usb) d₂))

-- The part of `ext3u_save` that writes the entry and links it. Without a journal handle the code ends
-- with the result of the last `ext3_bread`, which is 0. `f_last_offset` has 32 bits, and is stored in
-- 16 bits.
pub append_entry : InodeLayout → Env → (filled : Memory) → M (Unit {0})
append_entry L E filled d =
    let fifo = d.usb.s_fifo in
    let new_entry = link_last fifo.f_last filled in
    let size = d_size new_entry in
    let d₁ = begin_entry E size d in
    if not (E.readable 0)
    then (err (E.bread_errno 0), d)
    else if not (E.readable fifo.f_last_block)
    then (err (E.bread_errno fifo.f_last_block), d)
    else if not E.journal
    then (ok tt, d₁)
    else and_then
        (write_loop E fifo.f_blocks d.usb.s_block_size (size + 2) new_entry 0 fifo.f_last_block
          fifo.f_last_offset size 0 d₁)
        (finish_entry L E (here E fifo size) new_entry)

-- What `ext3u_save` finds: whether the file system has the feature that turns it off, whether memory is
-- there for the buffer of `ext3u_save` and for the one of `ext3u_get_full_path`, whether the undelete
-- inode is there, the dentry, and the inode on disk or the error of `ext3_get_inode_loc`.
pub record Request : Type 0 where
  pub incompatible : Bool
  pub buffer : Bool
  pub path_buffer : Bool
  pub undel_dir : Bool
  pub name : List ℕ
  pub parent : Dentry
  pub raw_inode : Result Memory
  pub type : ℕ

-- The state of `ext3u_save`: the file, the static entry, which keeps what the call before left in it, and
-- the disk. The links that are set in the static entry at the end are not kept here, since the next call
-- clears them before it reads them.
pub record Saving : Type 0 where
  pub file : File
  pub de_save : Memory
  pub disk : Disk

-- The file and the static entry when the inode has been read: the file's blocks are no longer its own.
pub take_over :
    InodeLayout → (hash : List ℕ → ℕ) → Request → (buf : List ℕ) (raw : Memory) → Saving → Saving
take_over L hash R buf raw s =
    let file = record (s.file) { i_blocks = 0; i_size = 0; i_disksize = 0 } in
    record s { file = file; de_save = fill_entry L hash raw buf file R.type }

-- The entry is stored. Where room cannot be made, the result is 0 all the same.
pub store : InodeLayout → Env → Freeing → Saving → Result ℕ × Saving
store L E F s =
    let (freed, d) = free_old_entries L E F s.de_save s.disk in
    elim freed [
      | ok old ↦
          let (r, d') = append_entry L E s.de_save d in
          (elim r [ ok x ↦ ok 0 | err e ↦ err e | hangs ↦ hangs ], record s { disk = d' })
      | err e ↦ (ok 0, record s { disk = d })
      | hangs ↦ (hangs, record s { disk = d })
    ]

-- `ext3u_save`. The result is 0, the code for a skipped file, or an error. Where `ext3u_skip_file` reads
-- before the start of the path (`none`), which no path with a slash makes it do, there is no result.
unfoldable pub save :
    InodeLayout → (hash : List ℕ → ℕ) → Env → Freeing → Request → Saving → Result ℕ × Saving
save L hash E F R s =
    if R.incompatible
    then (ok 0, s)
    else if not R.buffer
    then (err enomem, s)
    else if not R.undel_dir
    then (err enoent, s)
    else if not (E.readable 0)
    then (err (E.bread_errno 0), s)
    else if ltb s.disk.usb.s_del.d_max_size (d_inode_i_size L s.de_save)
    then (ok 0, s)
    else elim (get_full_path R.path_buffer R.name R.parent) [
      | err e ↦ (err e, s)
      | hangs ↦ (hangs, s)
      | ok (buf, name_length) ↦ elim (skip_file buf) [
        | none ↦ (hangs, s)
        | some (suc code) ↦ (ok (suc code), s)
        | some zero ↦ elim R.raw_inode [
          | err e ↦ (err e, record s { de_save = zeroed })
          | hangs ↦ (hangs, s)
          | ok raw ↦ store L E F (take_over L hash R buf raw s)
        ]
      ]
    ]

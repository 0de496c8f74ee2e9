-- ===== src/Undel/Save/Again.antt =====
-- ext3u/undel.c, `ext3u_save` and `ext3u_get_entry` together: a file that has been saved is found again.
use mathlib.Core.Path.{subst}
use ext3u.Common.{
  ℕ, ◌+◌, ◌%◌, ◌^◌, ◌≤◌, ◌<◌, ◌≡◌, refl, sym, ap, ◌∙◌, ◌⊎◌, inl, inr, true, false, ltb, some, ◌||◌,
  ◌==◌, eq→==, Bool-cases, List, [], ◌∷◌, length, Memory, get_cong, ok, arith,
}
use ext3u.Undel.Layout.{Record, InodeLayout, d_inode_i_size, d_size, d_hash, d_uid, entry_size}
use ext3u.Undel.Path.{get_full_path, path_max}
use ext3u.Undel.Skip.{skip_file}
use ext3u.Undel.Room.{Freeing, free_old_entries}
use ext3u.Undel.Disk.{Disk, Env}
use ext3u.Undel.Search.{permission, strncmp_equal, get_entry}
use ext3u.Undel.Search.Found.{find_path, get_entry-find}
use ext3u.Undel.Save.{
  File, Request, Saving, fill_entry, link_last, append_entry, take_over, store, save,
}
use ext3u.Undel.Save.Entry.{fill_entry-fields, strncmp_equal-cong}
use ext3u.Undel.Save.First.{Begins, link_last-outside, append_entry-Listed}

-- The search on a list with one entry, which has the path and which the user may restore.
find_path-only :
    (L : InodeLayout) (fsuid : ℕ) (path : List ℕ) (de : Memory)
    → strncmp_equal path de (entry_size L) path_max ≡ true
    → (fsuid ≡ 0) ⊎ (fsuid ≡ d_uid de)
    → find_path L fsuid path 0 (de ∷ []) ≡ ok (de, 1)
unfolding find_path permission
find_path-only L fsuid path de found user = simp (found, permitted user, permission) refl
  where
    permitted : (fsuid ≡ 0) ⊎ (fsuid ≡ d_uid de) → ((fsuid == 0) || (fsuid == d_uid de)) ≡ true
    permitted (inl e) = rw (eq→== fsuid 0 e) refl
    permitted (inr e) = elim (Bool-cases (fsuid == 0)) [
      | inl z ↦ rw z refl
      | inr z ↦ rw z (eq→== fsuid (d_uid de) e)
    ]

-- What the search looks at is not among the links that are set when the entry is appended.
module _ (L : InodeLayout) (path : List ℕ) (last : Record) (filled de : Memory)
    (bytes : (i : ℕ) → i < entry_size L + length path + 1 → de i ≡ link_last last filled i) where
  filled-same : (i : ℕ) → i < entry_size L + length path + 1 → 52 ≤ i → de i ≡ filled i
  filled-same i h far = bytes i h ∙ link_last-outside last filled i (inr far)

  d_hash-same : d_hash de ≡ d_hash filled
  d_hash-same = get_cong 4 60 de filled (λ i p q. filled-same i (omega arith) (omega arith))

  d_uid-same : d_uid de ≡ d_uid filled
  d_uid-same = get_cong 2 68 de filled (λ i p q. filled-same i (omega arith) (omega arith))

  path-same :
      strncmp_equal path de (entry_size L) path_max
      ≡ strncmp_equal path filled (entry_size L) path_max
  path-same =
      strncmp_equal-cong path de filled (entry_size L) path_max
        (λ i h. filled-same (entry_size L + i) (omega arith) (omega arith))

pub d_size-link_last :
    (last : Record) (filled : Memory) → d_size (link_last last filled) ≡ d_size filled
d_size-link_last last filled =
    get_cong 2 0 (link_last last filled) filled
      (λ i p q. link_last-outside last filled i (inl (omega arith)))

-- A file is saved when no other one is, and then looked for under its path, by the superuser or by its
-- owner: the entry that was stored is found. The entry fits the ring, its header lies in one block, the
-- blocks can be read and a journal handle is there; the path's hash fits 32 bits, and the owner and the
-- entry's size 16.
pub append_entry-get_entry :
    {L : InodeLayout} {E : Env} {d : Disk} (hash : List ℕ → ℕ) (raw : Memory) (path : List ℕ)
    (file : File) (type fsuid : ℕ)
    → Begins L E d (fill_entry L hash raw path file type)
    → d.usb.s_del.d_file_count ≡ 0
    → hash path < 2 ^ 32
    → file.i_uid < 2 ^ 16
    → entry_size L + length path + 1 < 2 ^ 16
    → (fsuid ≡ 0) ⊎ (fsuid ≡ file.i_uid)
    → (d' : Disk) × (append_entry L E (fill_entry L hash raw path file type) d ≡ (ok tt, d'))
      × (de : Memory) × ((i : ℕ)
          → i < entry_size L + length path + 1
          → de i ≡ link_last d.usb.s_fifo.f_last (fill_entry L hash raw path file type) i)
      × (get_entry L E hash fsuid path d' ≡ ok (de, 1))
append_entry-get_entry {L} {E} {d} hash raw path file type fsuid B none hashed owned sized user =
    let filled = fill_entry L hash raw path file type in
    let last = d.usb.s_fifo.f_last in
    let (tells_hash, tells_path, tells_uid, tells_size, tells_length) =
      fill_entry-fields L hash raw path file type hashed owned sized in
    let (d', done, counted, de, bytes, listed) = append_entry-Listed B in
    let bytes' : (i : ℕ) → i < entry_size L + length path + 1 → de i ≡ link_last last filled i =
      λ i h. bytes i (subst (λ k. i < k) (sym (d_size-link_last last filled ∙ tells_size)) h) in
    let hash_is = d_hash-same L path last filled de bytes' ∙ tells_hash in
    let found = path-same L path last filled de bytes' ∙ tells_path in
    let owner = d_uid-same L path last filled de bytes' ∙ tells_uid in
    (
      d',
      done,
      de,
      bytes',
      get_entry-find L E hash fsuid path d' (de ∷ []) B.super_readable
            (counted ∙ ap (λ k. (k + 1) % 2 ^ 32) none) listed ((λ e. hash_is), tt)
          ∙ find_path-only L fsuid path de found
              (elim user [ inl e ↦ inl e | inr e ↦ inr (e ∙ sym owner) ]),
    )

-- What holds when `ext3u_save` is called and stores the file: the file system has no feature that turns it
-- off, memory and the undelete inode are there, the static entry's size is within the limit, the path is
-- made and not skipped, and the inode on disk is read.
pub record Stores (L : InodeLayout) (R : Request) (s : Saving) (path : List ℕ) (raw : Memory)
    : Type 0 where
  pub compatible : R.incompatible ≡ false
  pub buffer : R.buffer ≡ true
  pub undel_dir : R.undel_dir ≡ true
  pub within : ltb s.disk.usb.s_del.d_max_size (d_inode_i_size L s.de_save) ≡ false
  pub length_of_name : ℕ
  pub full_path : get_full_path R.path_buffer R.name R.parent ≡ ok (path, length_of_name)
  pub kept : skip_file path ≡ some 0
  pub read : R.raw_inode ≡ ok raw

-- The file with its blocks given up.
abbrev pub emptied : File → File
emptied file = record file { i_blocks = 0; i_size = 0; i_disksize = 0 }

free_old_entries-empty :
    (L : InodeLayout) (E : Env) (F : Freeing) (de : Memory) (d : Disk)
    → E.readable 0 ≡ true
    → d.usb.s_fifo.f_first.r_offset ≡ 0
    → free_old_entries L E F de d ≡ (ok [], d)
unfolding free_old_entries
free_old_entries-empty L E F de d super_readable none =
    rw (super_readable, eq→== d.usb.s_fifo.f_first.r_offset 0 none) refl

-- Where there is no entry, no room is made, and the entry is appended.
store-append_entry :
    (L : InodeLayout) (E : Env) (F : Freeing) (s : Saving) (d' : Disk)
    → E.readable 0 ≡ true
    → s.disk.usb.s_fifo.f_first.r_offset ≡ 0
    → append_entry L E s.de_save s.disk ≡ (ok tt, d')
    → store L E F s ≡ (ok 0, record s { disk = d' })
unfolding store
store-append_entry L E F s d' super_readable none done =
    let e = free_old_entries-empty L E F s.de_save s.disk super_readable none in
    rw (ap (λ w. w.0) e, ap (λ w. w.1) e, ap (λ w. w.0) done, ap (λ w. w.1) done, store) refl

save-store :
    (L : InodeLayout) (hash : List ℕ → ℕ) (E : Env) (F : Freeing) (R : Request) (s : Saving)
    (path : List ℕ) (raw : Memory)
    → E.readable 0 ≡ true
    → Stores L R s path raw
    → save L hash E F R s ≡ store L E F (take_over L hash R path raw s)
unfolding save
save-store L hash E F R s path raw super_readable S =
    simp
      (S.compatible, S.buffer, S.undel_dir, super_readable, S.within, S.full_path, S.kept, S.read)
      refl

-- A file is saved by `ext3u_save` when no other one is, and then looked for under its full path, by the superuser or by its
-- owner: the call returns 0 and the file no longer has its blocks, and the entry with its inode is found. The entry fits the ring, its header lies in one block,
-- the blocks can be read and a journal handle is there; the path's hash fits 32 bits, and the owner and the
-- entry's size 16.
pub save-get_entry :
    {L : InodeLayout} {E : Env} (hash : List ℕ → ℕ) (F : Freeing) (R : Request) (s : Saving)
    (path : List ℕ) (raw : Memory) (fsuid : ℕ)
    → Stores L R s path raw
    → Begins L E s.disk (fill_entry L hash raw path (emptied s.file) R.type)
    → s.disk.usb.s_del.d_file_count ≡ 0
    → hash path < 2 ^ 32
    → s.file.i_uid < 2 ^ 16
    → entry_size L + length path + 1 < 2 ^ 16
    → (fsuid ≡ 0) ⊎ (fsuid ≡ s.file.i_uid)
    → let (r, s') = save L hash E F R s in
      (r ≡ ok 0)
      × (s'.file ≡ emptied s.file)
      × (de : Memory) × ((i : ℕ)
          → i < entry_size L + length path + 1
          → de i
            ≡ link_last s.disk.usb.s_fifo.f_last
                (fill_entry L hash raw path (emptied s.file) R.type)
                i)
      × (get_entry L E hash fsuid path s'.disk ≡ ok (de, 1))
unfolding take_over
save-get_entry {L} {E} hash F R s path raw fsuid S B none hashed owned sized user =
    let (d', done, de, bytes, found) =
      append_entry-get_entry hash raw path (emptied s.file) R.type fsuid B none hashed owned sized
        user in
    let stored =
      save-store L hash E F R s path raw B.super_readable S
      ∙ store-append_entry L E F (take_over L hash R path raw s) d' B.super_readable B.first_none
          done in
    (
      ap (λ w. w.0) stored,
      ap (λ w. w.1.file) stored,
      de,
      bytes,
      ap (λ w. get_entry L E hash fsuid path w.1.disk) stored ∙ found,
    )

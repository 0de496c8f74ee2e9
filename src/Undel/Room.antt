-- ===== src/Undel/Room.antt =====
-- ext3u/undel.c, room made for a new entry: `ext3u_free_old_entries`.
pub mod Oldest
pub mod Intact
pub mod Round
pub mod Enough
use ext3u.Common.{
  ℕ, zero, suc, ◌+◌, ◌%◌, ◌^◌, Bool, true, false, ◌||◌, not, ltb, if◌then◌else◌, List, [], ◌∷◌,
  Memory, Result, ok, err, hangs, eio,
}
use ext3u.Undel.Layout.{SuperBlock, InodeLayout, null_record, fifo_empty, d_size, d_inode_i_size}
use ext3u.Undel.Disk.{Disk, Env, M}
use ext3u.Undel.Super.{update_superblock, update_delete, update_previous}
use ext3u.Undel.Links.{update_entry, delete_entry}
use ext3u.Undel.Search.{get_first_entry}

-- What `ext3u_free_old_entries` asks of the kernel: whether the root directory is there and `kmalloc` has
-- memory, and what `ext3_new_inode` returns in each round.
pub record Freeing : Type 0 where
  pub root_dir : Bool
  pub enough : Bool
  pub new_inode : ℕ → Result (Unit {0})

-- The superblock of the disk replaced.
abbrev pub with_usb : SuperBlock → Disk → Disk
with_usb usb d = record d { usb = usb }

-- The condition of the loop: the queue has no room for the entry, or its file's blocks are more than
-- the limit allows beside those that are kept.
pub too_full : InodeLayout → SuperBlock → (de : Memory) → Bool
too_full L usb de =
    ltb usb.s_fifo.f_free (d_size de)
    || ltb usb.s_del.d_max_size ((usb.s_del.d_current_size + d_inode_i_size L de) % 2 ^ 64)

-- The first entry is taken out of the list and of the superblock's counts, and the one behind it gets
-- the null record as its previous entry. The results of these calls are not looked at.
pub drop_entry : InodeLayout → Env → (dh : Memory) → Disk → Result Disk
drop_entry L E dh d =
    let d₁ = (delete_entry E dh d).1 in
    elim (update_superblock L d₁.usb dh update_delete) [
      | ok usb ↦ ok (
          if fifo_empty usb
          then with_usb usb d₁
          else (update_entry E false usb.s_fifo.f_first null_record update_previous
              (with_usb usb d₁)).1)
      | err e ↦ err e
      | hangs ↦ hangs
    ]

-- The loop of `ext3u_free_old_entries`. `freed` are the entries whose inodes have been restored and
-- deleted with their data blocks, the last one first.
pub free_loop :
    InodeLayout
    → Env
    → Freeing
    → (de : Memory) (fuel round : ℕ) (freed : List Memory) → M (List Memory)
free_loop L E F de zero round freed d = (hangs, d)
free_loop L E F de (suc fuel) round freed d = elim (too_full L d.usb de) [
  | false ↦ (ok freed, d)
  | true ↦ elim (get_first_entry E F.enough d) [
    | err e ↦ (err e, d)
    | hangs ↦ (hangs, d)
    | ok (dh, block) ↦ elim (drop_entry L E dh d) [
      | err e ↦ (err e, d)
      | hangs ↦ (hangs, d)
      | ok d₁ ↦ elim E.journal [
        | false ↦ (err E.journal_errno, d₁)
        | true ↦ elim (F.new_inode round) [
          | err e ↦ (err e, d₁)
          | hangs ↦ (hangs, d₁)
          | ok x ↦ free_loop L E F de fuel (suc round) (dh ∷ freed) d₁
        ]
      ]
    ]
  ]
]

-- `ext3u_free_old_entries`: a list with no entry is left as it is. A round takes an entry away, so the
-- number of entries bounds the rounds, the last of which finds the list empty.
unfoldable pub free_old_entries : InodeLayout → Env → Freeing → (de : Memory) → M (List Memory)
free_old_entries L E F de d =
    if not (E.readable 0)
    then (err eio, d)
    else if fifo_empty d.usb
    then (ok [], d)
    else if not F.root_dir
    then (err eio, d)
    else free_loop L E F de (d.usb.s_del.d_file_count + 2) 0 [] d

-- ===== src/Undel/Search.antt =====
-- ext3u/undel.c, the entries found: `ext3u_permission`, `ext3u_get_first_entry`,
-- `ext3u_search_entry` and `ext3u_get_entry`. The entry that the search fills is static in the code; it
-- is the result here. A path is a list of characters, and the one of an entry is compared with
-- `strncmp(path, de->d_path, PATH_MAX)` on the bytes that follow the inode.
pub mod Found
pub mod Backward
use ext3u.Common.{
  ℕ, zero, suc, ◌+◌, ◌-◌, ◌%◌, ◌^◌, ◌≡◌, refl, ◌⊎◌, inl, inr, Bool-cases, Bool, true, false, ◌&&◌,
  ◌||◌, not, ◌==◌, if◌then◌else◌, List, [], ◌∷◌, Memory, get, Result, ok, err, hangs, eio, enoent,
  enomem, eperm,
}
use ext3u.Undel.Layout.{
  Record, FifoInfo, DelInfo, SuperBlock, InodeLayout, null_record, fifo_empty, d_next, d_hash,
  d_mode, d_uid, header_size, entry_size,
}
use ext3u.Undel.Ring.{Place, place}
use ext3u.Undel.Disk.{Disk, Env}
use ext3u.Undel.Copy.{fetch_entry}
use ext3u.Undel.Path.{path_max}

-- `ext3u_permission` for the user `fsuid`: nothing, or the error.
unfoldable pub permission : (fsuid uid mode mask : ℕ) → Result (Unit {0})
permission fsuid uid mode mask = if (fsuid == 0) || (fsuid == uid) then ok tt else err eperm

pub permission-cases :
    (fsuid uid mode mask : ℕ)
    → (permission fsuid uid mode mask ≡ ok tt) ⊎ (permission fsuid uid mode mask ≡ err eperm)
unfolding permission
permission-cases fsuid uid mode mask = elim (Bool-cases ((fsuid == 0) || (fsuid == uid))) [
  | inl e ↦ inl (rw e refl)
  | inr e ↦ inr (rw e refl)
]

-- `ext3u_get_first_entry`; `enough` says whether `kmalloc` has memory.
unfoldable pub get_first_entry : (E : Env) (enough : Bool) → Disk → Result (Memory × ℕ)
get_first_entry E enough d =
    let first = d.usb.s_fifo.f_first in
    if fifo_empty d.usb
    then err enoent
    else if not (E.readable first.r_block)
    then err eio
    else if not enough
    then err enomem
    else fetch_entry E d.usb.s_fifo.f_blocks d.usb.s_block_size d first.r_block first.r_offset

-- `!strncmp(path, m + at, n)` for a path without NUL.
unfoldable pub strncmp_equal : (path : List ℕ) (m : Memory) (at n : ℕ) → Bool
strncmp_equal path m at zero = true
strncmp_equal [] m at (suc n) = m at == 0
strncmp_equal (c ∷ path) m at (suc n) = (m at == c) && strncmp_equal path m (at + 1) n

-- What the search does with the entry it has fetched.
pub check_entry : InodeLayout → (fsuid : ℕ) (path : List ℕ) → Memory → Result Bool
check_entry L fsuid path de =
    if strncmp_equal path de (entry_size L) path_max
    then elim (permission fsuid (d_uid de) (d_mode de) 2) [
      | ok x ↦ ok true
      | err e ↦ err e
      | hangs ↦ hangs
    ]
    else ok false

-- One round of the search at an entry: the search ends with a result, or it goes on with the buffer of
-- the given block in hand.
pub data Looked : Type 0 where
  ends : Result (Memory × ℕ) → Looked
  goes_on : (block : ℕ) → Looked

pub look :
    InodeLayout
    → Env
    → (fsuid hash : ℕ) (path : List ℕ) → Disk
    → (block offset entries : ℕ) → Looked
unfolding check_entry
look L E fsuid hash path d block offset entries =
    if d_hash (λ i. d.b_data block (offset + i)) == hash
    then elim (fetch_entry E d.usb.s_fifo.f_blocks d.usb.s_block_size d block offset) [
      | ok (de, from) ↦ elim (check_entry L fsuid path de) [
        | ok true ↦ ends (ok (de, entries))
        | ok false ↦ goes_on from
        | err e ↦ ends (err e)
        | hangs ↦ ends hangs
      ]
      | err e ↦ ends (err e)
      | hangs ↦ ends hangs
    ]
    else goes_on block

-- The step to the next entry: whether the search goes on there.
pub onward : Env → (next end : Record) (block : ℕ) → Result Bool
onward E next end block =
    if not (next.r_block == block) && not (E.readable next.r_block)
    then err eio
    else ok (not (next.r_block == end.r_block) && not (next.r_offset == end.r_offset))

-- The loop of `ext3u_search_entry` from the entry at `block` and `offset` on, `entries` seen before. The
-- fetch moves on when an entry goes over the end of its block, and a block whose buffer is in hand is
-- not read again. The result is the entry and the number of entries seen.
pub search_loop :
    (L : InodeLayout) (E : Env) (fsuid hash : ℕ) (path : List ℕ) (end : Record) (d : Disk)
    (fuel block offset entries : ℕ)
    → Result (Memory × ℕ)
search_loop L E fsuid hash path end d zero block offset entries = hangs
search_loop L E fsuid hash path end d (suc fuel) block offset entries =
    let next = d_next (λ i. d.b_data block (offset + i)) in
    elim (look L E fsuid hash path d block offset (entries + 1)) [
      | ends result ↦ result
      | goes_on from ↦ elim (onward E next end from) [
        | ok true ↦
            search_loop L E fsuid hash path end d fuel next.r_block next.r_offset (entries + 1)
        | ok false ↦ err enoent
        | err e ↦ err e
        | hangs ↦ hangs
      ]
    ]

-- `ext3u_search_entry`. Each round passes to another entry, so more rounds than there are entries, which
-- `d_file_count` counts, are not needed on a list that is not damaged.
pub search_entry :
    (L : InodeLayout) (E : Env) (hash : List ℕ → ℕ) (fsuid : ℕ) (path : List ℕ) (start end : Record)
    (fuel : ℕ)
    → Disk
    → Result (Memory × ℕ)
search_entry L E hash fsuid path start end fuel d =
    if not (E.readable start.r_block)
    then err eio
    else search_loop L E fsuid (hash path) path end d fuel start.r_block start.r_offset 0

-- `ext3u_get_entry`.
unfoldable pub get_entry :
    (L : InodeLayout) (E : Env) (hash : List ℕ → ℕ) (fsuid : ℕ) (path : List ℕ)
    → Disk
    → Result (Memory × ℕ)
get_entry L E hash fsuid path d =
    if not (E.readable 0)
    then err eio
    else if d.usb.s_del.d_file_count == 0
    then err enoent
    else search_entry L E hash fsuid path (d.usb.s_fifo.f_first) null_record
        (d.usb.s_del.d_file_count) d

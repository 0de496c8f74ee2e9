-- ===== src/Undel/Search/Backward.antt =====
-- ext3u/undel.c, `ext3u_find_entry`, the search that starts near the end of the list. Its result is that of
-- its first call of `ext3u_search_entry`, which is an entry or an error and never NULL, so the code
-- behind that call is not reached.
use ext3u.Common.{
  ℕ, zero, suc, ◌+◌, ◌-◌, ◌%◌, ◌^◌, true, false, ◌==◌, not, if◌then◌else◌, List, Memory, get,
  Result, ok, err, hangs, eio, enoent,
}
use ext3u.Undel.Layout.{InodeLayout, null_record}
use ext3u.Undel.Ring.{Place, place, next_block}
use ext3u.Undel.Disk.{Disk, Env}
use ext3u.Undel.Search.{search_entry}

-- `EXT3u_DISK_CACHE_SIZE`.
abbrev pub disk_cache_size : ℕ
disk_cache_size = 8

-- The loop that goes back up to `i` blocks, not past the first one of the list. No block of the list has the
-- number 0.
pub shift_back : (f_blocks first_block i block : ℕ) → ℕ
shift_back f_blocks first_block zero block = block
shift_back f_blocks first_block (suc i) block = elim (block == first_block) [
  | true ↦ block
  | false ↦ shift_back f_blocks first_block i (if block == 1 then f_blocks else block - 1)
]

-- The loop that looks for a block in which an entry starts: the block and the offset of the entry. It
-- stands in another block in each round, so there are no more rounds than blocks.
pub start_loop : (E : Env) (d : Disk) (f_blocks last_block fuel block : ℕ) → Result Place
start_loop E d f_blocks last_block zero block = hangs
start_loop E d f_blocks last_block (suc fuel) block =
    let offset = get 4 0 (d.b_data block) in
    let next = next_block f_blocks block in
    elim (E.readable block) [
      | false ↦ err eio
      | true ↦ elim (offset == 0) [
        | false ↦ ok (place block offset)
        | true ↦ elim (block == last_block) [
          | true ↦ err enoent
          | false ↦ elim (next == last_block) [
            | true ↦ ok (place next offset)
            | false ↦ start_loop E d f_blocks last_block fuel next
          ]
        ]
      ]
    ]

-- `ext3u_find_entry`.
pub find_entry :
    InodeLayout → Env → (hash : List ℕ → ℕ) (fsuid : ℕ) (path : List ℕ) → Disk → Result (Memory × ℕ)
unfolding shift_back start_loop
find_entry L E hash fsuid path d =
    let fifo = d.usb.s_fifo in
    let total_entries = d.usb.s_del.d_file_count in
    let last_block = fifo.f_last.r_block in
    let block = shift_back fifo.f_blocks fifo.f_first.r_block disk_cache_size last_block in
    if not (E.readable 0)
    then err eio
    else if total_entries == 0
    then err enoent
    else elim (start_loop E d fifo.f_blocks last_block (fifo.f_blocks + 1) block) [
      | err e ↦ err e
      | hangs ↦ hangs
      | ok start ↦
          search_entry L E hash fsuid path
            (record {
              r_block = start.block;
              r_real_block = 0;
              r_offset = start.offset % 2 ^ 16;
              r_size = 0;
            })
            null_record total_entries d
    ]

-- ===== src/Undel/Search/Found.antt =====
-- `ext3u_get_entry` finds the first entry of the list that has the path.
use ext3u.Common.{
  ℕ, zero, suc, ◌+◌, ◌≤◌, ◌≡◌, refl, ap, ◌∙◌, ◌≢◌, Bool, true, false, ◌||◌, ◌==◌, Bool-cases,
  if◌then◌else◌, ==→ne, eq→==, ne→==, List, [], ◌∷◌, length, Memory, Result, ok, err, hangs, enoent,
  inl, inr, arith,
}
use ext3u.Undel.Layout.{Record, InodeLayout, null_record, d_next, d_hash, d_mode, d_uid, entry_size}
use ext3u.Undel.Disk.{Disk, Env}
use ext3u.Undel.Path.{path_max}
use ext3u.Undel.Copy.{fetch_entry}
use ext3u.Undel.Search.{
  permission, strncmp_equal, check_entry, look, onward, search_loop, search_entry, get_entry,
  Looked, ends, goes_on,
}

-- The header of the entry at a place.
abbrev pub header : Disk → (block offset : ℕ) → Memory
header d block offset i = d.b_data block (offset + i)

-- The entry is fetched from the place.
pub record Fetches (E : Env) (d : Disk) (block offset : ℕ) (de : Memory) : Type 0 where
  pub from : ℕ
  pub fetched :
      fetch_entry E d.usb.s_fifo.f_blocks d.usb.s_block_size d block offset ≡ ok (de, from)

-- The entries of the list from a record on, in their order: each block is read, each header tells the
-- hash of the entry that is fetched there and where the next one stands, and behind the last one
-- comes the null record.
abbrev pub Listed : Env → Disk → (block offset : ℕ) → List Memory → Type 0
Listed E d block offset [] = (block ≡ 0) × (offset ≡ 0)
Listed E d block offset (de ∷ des) =
    (block ≢ 0)
    × (offset ≢ 0)
    × (E.readable block ≡ true)
    × (d_hash (header d block offset) ≡ d_hash de)
    × Fetches E d block offset de
    × Listed E d (d_next (header d block offset)).r_block (d_next (header d block offset)).r_offset
        des

-- The entry, if it has the path and the user may restore it, and otherwise what follows.
abbrev chosen :
    InodeLayout
    → (fsuid : ℕ) (path : List ℕ) (entries : ℕ) → Memory
    → Result (Memory × ℕ)
    → Result (Memory × ℕ)
chosen L fsuid path entries de rest =
    if strncmp_equal path de (entry_size L) path_max
    then elim (permission fsuid (d_uid de) (d_mode de) 2) [
      | ok x ↦ ok (de, entries + 1)
      | err e ↦ err e
      | hangs ↦ hangs
    ]
    else rest

-- The search on the list of entries alone.
unfoldable pub find_path :
    InodeLayout → (fsuid : ℕ) (path : List ℕ) (entries : ℕ) → List Memory → Result (Memory × ℕ)
find_path L fsuid path entries [] = err enoent
find_path L fsuid path entries (de ∷ des) =
    chosen L fsuid path entries de (find_path L fsuid path (entries + 1) des)

-- Whether an entry follows.
abbrev more : List Memory → Bool
more [] = false
more (de ∷ des) = true

-- Every entry that has the path has its hash.
abbrev pub Hashed : InodeLayout → (path : List ℕ) (hash : ℕ) → List Memory → Type 0
Hashed L path hash [] = Unit
Hashed L path hash (de ∷ des) =
    (strncmp_equal path de (entry_size L) path_max ≡ true → d_hash de ≡ hash)
    × Hashed L path hash des

module _ (L : InodeLayout) (E : Env) (fsuid hash : ℕ) (path : List ℕ) (d : Disk)
    (super_readable : E.readable 0 ≡ true) where
  -- The step behind an entry: to the next one, or to the end of the list.
  onward-Listed :
      (next : Record) (from : ℕ) (des : List Memory)
      → Listed E d next.r_block next.r_offset des
      → onward E next null_record from ≡ ok (more des)
  unfolding onward
  onward-Listed next from [] l = elim (Bool-cases (next.r_block == from)) [
    | inl e ↦ rw (e, eq→== next.r_block 0 l.0) refl
    | inr e ↦ rw (e, l.0, super_readable) refl
  ]
  onward-Listed next from (de ∷ des) l = elim (Bool-cases (next.r_block == from)) [
    | inl e ↦ rw (e, ne→== next.r_block 0 l.0, ne→== next.r_offset 0 l.1) refl
    | inr e ↦ rw (e, l.2, ne→== next.r_block 0 l.0, ne→== next.r_offset 0 l.1) refl
  ]

  -- What a round makes of an entry, by its path and its owner.
  abbrev verdict : (entries from : ℕ) → Memory → Looked
  verdict entries from de =
      if strncmp_equal path de (entry_size L) path_max
      then elim (permission fsuid (d_uid de) (d_mode de) 2) [
        | ok x ↦ ends (ok (de, entries))
        | err e ↦ ends (err e)
        | hangs ↦ ends hangs
      ]
      else goes_on from

  look-Listed :
      (block offset entries : ℕ) (de : Memory)
      → (strncmp_equal path de (entry_size L) path_max ≡ true → d_hash de ≡ hash)
      → d_hash (header d block offset) ≡ d_hash de
      → Fetches E d block offset de
      → (from : ℕ) × (look L E fsuid hash path d block offset entries ≡ verdict entries from de)
  unfolding look check_entry permission
  look-Listed block offset entries de hashed told f =
      elim (Bool-cases (d_hash (header d block offset) == hash)) [
        | inl e ↦ (
          f.from,
          rw (e, f.fetched)
              (elim (Bool-cases (strncmp_equal path de (entry_size L) path_max)) [
                | inl s ↦ rw s (elim (Bool-cases ((fsuid == 0) || (fsuid == d_uid de))) [
                  | inl p ↦ rw p refl
                  | inr p ↦ rw p refl
                ])
                | inr s ↦ rw s refl
              ]),
        )
        | inr e ↦ (
          block,
          rw e (elim (Bool-cases (strncmp_equal path de (entry_size L) path_max)) [
            | inl s ↦ absurd (==→ne _ _ e (told ∙ hashed s))
            | inr s ↦ rw s refl
          ]),
        )
      ]

  -- A round of the loop at an entry of the list.
  search_loop-round :
      (fuel block offset entries : ℕ) (de : Memory) (des : List Memory)
      → Hashed L path hash (de ∷ des)
      → Listed E d block offset (de ∷ des)
      → let next = d_next (header d block offset) in
        let rest =
          search_loop L E fsuid hash path null_record d fuel next.r_block next.r_offset
            (entries + 1) in
        search_loop L E fsuid hash path null_record d (suc fuel) block offset entries
        ≡ chosen L fsuid path entries de (elim (more des) [ false ↦ err enoent | true ↦ rest ])
  unfolding search_loop permission
  search_loop-round fuel block offset entries de des h l =
      let (from, looked) = look-Listed block offset (entries + 1) de h.0 l.3 l.4 in
      let onward = onward-Listed (d_next (header d block offset)) from des l.5 in
      rw (looked, search_loop)
        (elim (Bool-cases (strncmp_equal path de (entry_size L) path_max)) [
          | inl s ↦
              rw (s, search_loop)
                (elim (Bool-cases ((fsuid == 0) || (fsuid == d_uid de))) [
                  | inl p ↦ rw (p, search_loop) refl
                  | inr p ↦ rw (p, search_loop) refl
                ])
          | inr s ↦ rw (s, onward, search_loop) refl
        ])

  -- From an entry of the list on, the loop finds what the search on the list finds.
  search_loop-find :
      (fuel block offset entries : ℕ) (de : Memory) (des : List Memory)
      → suc (length des) ≤ fuel
      → Hashed L path hash (de ∷ des)
      → Listed E d block offset (de ∷ des)
      → search_loop L E fsuid hash path null_record d fuel block offset entries
        ≡ find_path L fsuid path entries (de ∷ des)
  unfolding find_path
  search_loop-find zero block offset entries de des fuels h l = absurd (omega arith)
  search_loop-find (suc fuel) block offset entries de [] fuels h l =
      search_loop-round fuel block offset entries de [] h l
  search_loop-find (suc fuel) block offset entries de (de' ∷ des) fuels h l =
      let next = d_next (header d block offset) in
      search_loop-round fuel block offset entries de (de' ∷ des) h l
      ∙ ap (chosen L fsuid path entries de) (
          search_loop-find fuel next.r_block next.r_offset (entries + 1) de' des (omega arith) h.1
            l.5)

-- `ext3u_get_entry` gives the first entry of the list that has the path, if the user is the
-- superuser or owns it, the error `EPERM` if the user does not, and `ENOENT` if no entry has the
-- path. The superblock can be read, and the list is stored from its first entry on, as many
-- entries as it counts, each that has the path with the path's hash.
pub get_entry-find :
    (L : InodeLayout) (E : Env) (hash : List ℕ → ℕ) (fsuid : ℕ) (path : List ℕ) (d : Disk)
    (des : List Memory)
    → E.readable 0 ≡ true
    → d.usb.s_del.d_file_count ≡ length des
    → Listed E d d.usb.s_fifo.f_first.r_block d.usb.s_fifo.f_first.r_offset des
    → Hashed L path (hash path) des
    → get_entry L E hash fsuid path d ≡ find_path L fsuid path 0 des
unfolding get_entry search_entry find_path
get_entry-find L E hash fsuid path d [] super_readable counted l h =
    rw (super_readable, counted) refl
get_entry-find L E hash fsuid path d (de ∷ des) super_readable counted l h =
    let first = d.usb.s_fifo.f_first in
    rw (super_readable, ne→== d.usb.s_del.d_file_count 0 (omega (arith, counted)), l.2)
      (search_loop-find L E fsuid (hash path) path d super_readable d.usb.s_del.d_file_count
        first.r_block first.r_offset 0 de des (omega (arith, counted)) h l)

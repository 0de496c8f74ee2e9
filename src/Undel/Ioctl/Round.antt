-- ===== src/Undel/Ioctl/Round.antt =====
-- One round of `ext3u_do_uls` at an entry that the user may see and that the buffer has room for.
use mathlib.Core.Path.{subst}
use ext3u.Common.{
  ℕ, ◌+◌, ◌-◌, ◌*◌, ◌%◌, ◌^◌, ◌≤◌, ◌<◌, ◌≡◌, refl, sym, ap, ◌∙◌, ◌≢◌, inl, inr, true, ◌==◌, ne→==,
  le→ltb, Bool-cases, if◌then◌else◌, List, [], ◌∷◌, Memory, zeroed, get, get_cong, memcpy,
  memcpy_inside, ok, arith,
}
use ext3u.Undel.Layout.{InodeLayout, header_size, d_size, d_next, d_path_length, d_uid, d_mode}
use ext3u.Undel.Disk.{Disk, Env}
use ext3u.Undel.Copy.{read_loop, fetch_entry}
use ext3u.Undel.Copy.Head.{KeepsHead, read_loop-KeepsHead}
use ext3u.Undel.Links.Effect.{get_record-cong}
use ext3u.Undel.Search.{permission}
use ext3u.Undel.Search.Found.{Fetches, header}
use ext3u.Undel.Ioctl.Room.{entry_room, needed-entry_room, le-int_lt, int_sub}
use ext3u.Undel.Ioctl.{
  UlsInfo, InodeFields, needed, info_size, put_listing, stop, goes, next_record, go_next,
  list_entry, uls_round,
}

-- The room that the entries need together.
abbrev pub room_of : (u_ll : ℕ) → List Memory → ℕ
room_of u_ll [] = 0
room_of u_ll (de ∷ des) = entry_room u_ll de + room_of u_ll des

-- The user may see each entry.
abbrev pub AllPermitted : (fsuid : ℕ) → List Memory → Type 0
AllPermitted fsuid [] = Unit
AllPermitted fsuid (de ∷ des) =
    (permission fsuid (d_uid de) (d_mode de) 2 ≡ ok tt) × AllPermitted fsuid des

-- What an entry leaves of the request, before the step to the next entry.
abbrev pub listed : InodeLayout → InodeFields → (stack de : Memory) (fill : ℕ) → UlsInfo → UlsInfo
listed L F stack de fill info = record info {
  u_buffer = put_listing L F stack de info.u_ll fill info.u_buffer;
  u_files = info.u_files + 1;
}

module _ (L : InodeLayout) (F : InodeFields) (E : Env) (fsuid : ℕ) (stack : Memory) (d : Disk)
    (block offset : ℕ) (de : Memory) (f : Fetches E d block offset de) where
  head : Memory
  head = memcpy zeroed 0 (d.b_data block) offset header_size

  -- The entry that was read begins with its header.
  head-same : (i : ℕ) → i < header_size → de i ≡ head i
  unfolding fetch_entry head
  head-same = subst (KeepsHead head header_size) f.fetched (
      read_loop-KeepsHead E d.usb.s_fifo.f_blocks d.usb.s_block_size d
        (d_size head - header_size + 2) head header_size block ((offset + header_size) % 2 ^ 16)
        (d_size head - header_size))

  same_field : (w at : ℕ) → at + w ≤ header_size → get w at head ≡ get w at de
  same_field w at fits = get_cong w at head de (λ i p q. sym (head-same i (omega arith)))

  same_needed : (u_ll : ℕ) → needed u_ll head ≡ needed u_ll de
  unfolding needed
  same_needed u_ll = ap (λ k. (4 + (k + 1) + u_ll * 36) % 2 ^ 32) (same_field 2 64 (omega arith))

  uls_round-Listed :
      (fill remaining : ℕ) (info : UlsInfo)
      → permission fsuid (d_uid de) (d_mode de) 2 ≡ ok tt
      → entry_room info.u_ll de ≤ remaining
      → remaining ≤ info.u_buffer_length
      → info.u_buffer_length < 2 ^ 31
      → uls_round L F E fsuid stack d d.usb.s_block_size block offset fill remaining info
        ≡ list_entry L F E stack f.from de fill (remaining - entry_room info.u_ll de) info
  unfolding uls_round fetch_entry head
  uls_round-Listed fill remaining info permitted room fits int =
      let exact : needed info.u_ll head ≡ entry_room info.u_ll de =
        same_needed info.u_ll ∙ needed-entry_room info.u_ll de (omega (arith, room, fits, int)) in
      let rest = d_size head - header_size in
      let fetched : read_loop E d.usb.s_fifo.f_blocks d.usb.s_block_size d (rest + 2) head
            header_size block ((offset + header_size) % 2 ^ 16) rest
          ≡ ok (de, f.from) =
        f.fetched in
      rw
        (
          le-int_lt info.u_buffer_length (needed info.u_ll head) int
              (omega (arith, exact, room, fits)),
          le-int_lt remaining (needed info.u_ll head) (omega (arith, fits, int))
              (omega (arith, exact, room)),
          same_field 2 68 (omega arith),
          same_field 2 66 (omega arith),
          permitted,
          fetched,
        )
        (ap (λ k. list_entry L F E stack f.from de fill k info)
          (int_sub remaining (needed info.u_ll head) (omega (arith, fits, int))
              (omega (arith, exact, room))
            ∙ ap (λ k. remaining - k) exact))

  -- The record of the next entry, as it stands on the block.
  same_next : d_next de ≡ d_next (header d block offset)
  unfolding head
  same_next = get_record-cong 8 de (header d block offset) (λ i p q.
      head-same i (omega arith)
      ∙ memcpy_inside zeroed 0 (d.b_data block) offset header_size i (omega arith) (omega arith)
      ∙ ap (d.b_data block) (omega arith))

  -- Behind an entry that fits, with no limit on the files, the buffer is not full or the step goes on.
  list_entry-tail :
      (fill left : ℕ) (info : UlsInfo)
      → info.u_max_files ≡ 0
      → list_entry L F E stack f.from de fill left info ≡ (
          if left == 0
          then stop
              (next_record (d_next de).r_block (d_next de).r_offset (listed L F stack de fill info))
          else go_next E de f.from
              (fill + info_size info.u_ll + (d_path_length de + 1))
              left
              (listed L F stack de fill info))
  unfolding list_entry
  list_entry-tail fill left info none = rw (le→ltb 0 info.u_max_files (omega (arith, none))) refl

  module _ (fill remaining : ℕ) (info : UlsInfo)
      (permitted : permission fsuid (d_uid de) (d_mode de) 2 ≡ ok tt)
      (fits : remaining ≤ info.u_buffer_length) (int : info.u_buffer_length < 2 ^ 31)
      (no_limit : info.u_max_files ≡ 0) where
    pub uls_round-last :
        entry_room info.u_ll de ≤ remaining
        → (d_next (header d block offset)).r_block ≡ 0
        → (d_next (header d block offset)).r_offset ≡ 0
        → uls_round L F E fsuid stack d d.usb.s_block_size block offset fill remaining info
          ≡ stop (next_record 0 0 (listed L F stack de fill info))
    unfolding go_next
    uls_round-last room nb null =
        let b : (d_next de).r_block ≡ 0 = ap (λ r. r.r_block) same_next ∙ nb in
        let o : (d_next de).r_offset ≡ 0 = ap (λ r. r.r_offset) same_next ∙ null in
        uls_round-Listed fill remaining info permitted room fits int
        ∙ list_entry-tail fill (remaining - entry_room info.u_ll de) info no_limit
        ∙ elim (Bool-cases (remaining - entry_room info.u_ll de == 0)) [
          | inl e ↦ rw (e, b, o) refl
          | inr e ↦ rw (e, b, o) refl
        ]

    pub uls_round-next :
        entry_room info.u_ll de < remaining
        → (d_next (header d block offset)).r_block ≢ 0
        → E.readable (d_next (header d block offset)).r_block ≡ true
        → uls_round L F E fsuid stack d d.usb.s_block_size block offset fill remaining info
          ≡ goes
              (d_next (header d block offset)).r_block
              (d_next (header d block offset)).r_offset
              (fill + info_size info.u_ll + (d_path_length de + 1))
              (remaining - entry_room info.u_ll de)
              (listed L F stack de fill info)
    unfolding go_next
    uls_round-next room nb readable =
        uls_round-Listed fill remaining info permitted (omega arith) fits int
        ∙ list_entry-tail fill (remaining - entry_room info.u_ll de) info no_limit
        ∙ rw
            (
              ne→== (remaining - entry_room info.u_ll de) 0 (omega arith),
              same_next,
              ne→== (d_next (header d block offset)).r_block 0 nb,
              readable,
            )
            (elim (Bool-cases ((d_next (header d block offset)).r_block == f.from)) [
              | inl e ↦ rw e refl
              | inr e ↦ rw e refl
            ])

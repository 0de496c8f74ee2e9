-- ===== src/Undel/Save/First.antt =====
-- ext3u/undel.c, `ext3u_save` on a list without entries: the new entry becomes the whole list.
use mathlib.Core.Path.{subst}
use ext3u.Common.{
  ℕ, ◌+◌, ◌%◌, ◌^◌, ◌≤◌, ◌<◌, ◌≡◌, refl, sym, ap, ◌∙◌, ◌⊎◌, inl, inr, true, eq→==, ltb, Bool-cases,
  [], ◌∷◌, Memory, put_outside, get_cong, Result, ok, arith,
}
use ext3u.Undel.Layout.{
  Record, SuperBlock, InodeLayout, d_size, d_next, entry_size, sub32, header_size, d_next_at,
}
use ext3u.Undel.Ring.{Place, place, IsRing, InRing, walk, ring_size}
use ext3u.Undel.Ring.Walk.{walk_within}
use ext3u.Undel.Disk.{Disk, Env, byte_at, and_then}
use ext3u.Undel.Copy.{write_loop, fetch_entry}
use ext3u.Undel.Copy.RoundTrip.{Agrees, fetch_entry-Written}
use ext3u.Undel.Copy.Written.{AllReadable, Written, write_loop-Written}
use ext3u.Undel.Super.Delete.{at_record}
use ext3u.Undel.Links.Unlink.{null_place}
use ext3u.Undel.Room.{with_usb}
use ext3u.Undel.Search.Found.{Listed, header}
use ext3u.Undel.Save.{
  put_link, link_last, here, begin_entry, give_up_rest, count_entry, finish_entry, append_entry,
}
use ext3u.Undel.Save.Begun.{at_record-shift, begin_entry-first}
use ext3u.Undel.Save.Linking.{link_last-next}

-- The state in which an entry is appended to a list without entries: its places are in the ring, and its
-- header in one block.
pub record Begins (L : InodeLayout) (E : Env) (d : Disk) (filled : Memory) : Type 0 where
  pub super_readable : E.readable 0 ≡ true
  pub journal : E.journal ≡ true
  pub readable : AllReadable E d.usb.s_fifo.f_blocks
  pub ring : IsRing d.usb.s_fifo.f_blocks d.usb.s_block_size
  pub small : d.usb.s_block_size ≤ 2 ^ 16
  pub inside :
      InRing d.usb.s_fifo.f_blocks d.usb.s_block_size
        (place d.usb.s_fifo.f_last_block d.usb.s_fifo.f_last_offset)
  pub room : d.usb.s_fifo.f_last_offset + header_size < d.usb.s_block_size
  pub long : header_size ≤ d_size (link_last d.usb.s_fifo.f_last filled)
  pub fits :
      d_size (link_last d.usb.s_fifo.f_last filled)
      ≤ ring_size d.usb.s_fifo.f_blocks d.usb.s_block_size
  pub first_none : d.usb.s_fifo.f_first.r_offset ≡ 0
  pub last_none : d.usb.s_fifo.f_last.r_offset ≡ 0

-- Outside its two links the entry is as `ext3u_save` has filled it.
pub link_last-outside :
    (last : Record) (filled : Memory) (i : ℕ)
    → (i < 8) ⊎ (52 ≤ i)
    → link_last last filled i ≡ filled i
unfolding link_last put_link
link_last-outside last filled i (inl h) =
    put_outside 2 26 _ _ i (inl (omega arith))
    ∙ put_outside 2 24 _ _ i (inl (omega arith))
    ∙ put_outside 4 8 _ _ i (inl (omega arith))
    ∙ put_outside 2 50 _ _ i (inl (omega arith))
    ∙ put_outside 2 48 _ _ i (inl (omega arith))
    ∙ put_outside 4 32 _ _ i (inl (omega arith))
link_last-outside last filled i (inr h) =
    put_outside 2 26 _ _ i (inr (omega arith))
    ∙ put_outside 2 24 _ _ i (inr (omega arith))
    ∙ put_outside 4 8 _ _ i (inr (omega arith))
    ∙ put_outside 2 50 _ _ i (inr (omega arith))
    ∙ put_outside 2 48 _ _ i (inr (omega arith))
    ∙ put_outside 4 32 _ _ i (inr (omega arith))

-- Giving up the rest of a block changes the count of free bytes alone.
give_up_rest-free :
    (L : InodeLayout) (usb : SuperBlock) (end : Place)
    → (free : ℕ) × ((give_up_rest L usb end).0
        ≡ record usb { s_fifo = record (usb.s_fifo) { f_free = free } })
unfolding give_up_rest
give_up_rest-free L usb end =
    elim (Bool-cases (ltb (sub32 usb.s_block_size end.offset) (entry_size L))) [
      | inl e ↦
          (sub32 (usb.s_fifo.f_free) (sub32 usb.s_block_size end.offset), rw (e, give_up_rest) refl)
      | inr e ↦ (usb.s_fifo.f_free, rw (e, give_up_rest) refl)
    ]

-- What is left on the disk when the only entry has been stored: the superblock counts one entry more, and
-- has its record.
pub record Begun (d : Disk) (update : Record) (d' : Disk) : Type 0 where
  pub same_data : d'.b_data ≡ d.b_data
  pub same_first : d'.usb.s_fifo.f_first ≡ d.usb.s_fifo.f_first
  pub last : d'.usb.s_fifo.f_last ≡ update
  pub same_blocks : d'.usb.s_fifo.f_blocks ≡ d.usb.s_fifo.f_blocks
  pub same_size : d'.usb.s_block_size ≡ d.usb.s_block_size
  pub counted : d'.usb.s_del.d_file_count ≡ (d.usb.s_del.d_file_count + 1) % 2 ^ 32

finish_entry-Begun :
    (L : InodeLayout) (E : Env) (update : Record) (new_entry : Memory) (end : Place) (d : Disk)
    → d.usb.s_fifo.f_last.r_offset ≡ 0
    → (d' : Disk) × (finish_entry L E update new_entry end d ≡ (ok tt, d')) × Begun d update d'
unfolding finish_entry count_entry
finish_entry-Begun L E update new_entry end d none =
    let (free, same) = give_up_rest-free L d.usb end in
    let usb = (give_up_rest L d.usb end).0 in
    let end' = (give_up_rest L d.usb end).1 in
    (
      with_usb (count_entry L update new_entry end' usb) d,
      rw
          (
            eq→== usb.s_fifo.f_last.r_offset 0 (ap (λ u. u.s_fifo.f_last.r_offset) same ∙ none),
            finish_entry,
          )
          refl,
      record {
        same_data = refl;
        same_first = ap (λ u. u.s_fifo.f_first) same;
        last = refl;
        same_blocks = ap (λ u. u.s_fifo.f_blocks) same;
        same_size = ap (λ u. u.s_block_size) same;
        counted = ap (λ u. (u.s_del.d_file_count + 1) % 2 ^ 32) same;
      },
    )

module _ {L : InodeLayout} {E : Env} {d : Disk} {filled : Memory} (B : Begins L E d filled) where
  new_entry : Memory
  new_entry = link_last d.usb.s_fifo.f_last filled

  size : ℕ
  size = d_size new_entry

  p : Place
  p = place d.usb.s_fifo.f_last_block d.usb.s_fifo.f_last_offset

  run : Result Place × Disk
  run =
      write_loop E d.usb.s_fifo.f_blocks d.usb.s_block_size (size + 2) new_entry 0
        d.usb.s_fifo.f_last_block d.usb.s_fifo.f_last_offset size 0 (begin_entry E size d)

  run-Written :
      (end : Place) × (run.0 ≡ ok end)
      × Written d.usb.s_fifo.f_blocks d.usb.s_block_size new_entry 0 p size
          (begin_entry E size d)
          run.1
  unfolding run p size new_entry
  run-Written =
      let done =
        write_loop-Written E d.usb.s_fifo.f_blocks d.usb.s_block_size new_entry B.small (size + 2) 0
          d.usb.s_fifo.f_last_block d.usb.s_fifo.f_last_offset size 0 (begin_entry E size d) B.ring
          B.readable B.inside B.fits (omega arith) in
      (_, done.0, done.1)

  append_entry-run :
      append_entry L E filled d
      ≡ and_then run (finish_entry L E (here E d.usb.s_fifo size) new_entry)
  unfolding append_entry run size new_entry
  append_entry-run =
      simp
        (
          B.super_readable,
          B.readable d.usb.s_fifo.f_last_block B.inside.block_low B.inside.block_high,
          B.journal,
        )
        refl

  here-p : at_record (here E d.usb.s_fifo size) ≡ p
  unfolding p
  here-p = ap (place d.usb.s_fifo.f_last_block) (omega (arith, B.small, B.inside.offset_high))

  usb₂ :
      run.1.usb
      ≡ record (d.usb) { s_fifo = record (d.usb.s_fifo) { f_first = here E d.usb.s_fifo size } }
  usb₂ =
      let (end, returned, W) = run-Written in W.same_usb ∙ begin_entry-first E size d B.first_none

  -- The bytes of the header where it stands.
  header-same :
      (d' : Disk) (i : ℕ)
      → d'.b_data ≡ run.1.b_data
      → i < header_size
      → header d' p.block p.offset i ≡ new_entry i
  unfolding p size new_entry
  header-same d' i same h =
      let (end, returned, W) = run-Written in
      ap (λ m. m p.block (p.offset + i)) same
      ∙ ap (byte_at run.1) (sym (walk_within _ _ i p.block p.offset (omega (arith, B.room))))
      ∙ W.bytes i (omega (arith, B.long))
      ∙ ap new_entry (omega arith)

  next-null :
      (d' : Disk)
      → d'.b_data ≡ run.1.b_data
      → at_record (d_next (header d' p.block p.offset)) ≡ null_place
  unfolding new_entry
  next-null d' same =
      at_record-shift d_next_at d_next_at (header d' p.block p.offset) new_entry
        (λ k h. header-same d' (d_next_at + k) same (omega arith))
      ∙ link_last-next d.usb.s_fifo.f_last filled

  -- The entry whose bytes stand on the blocks makes the list, from its own place on.
  Listed-only :
      (d' : Disk) (de : Memory) (from : ℕ)
      → d'.b_data ≡ run.1.b_data
      → fetch_entry E d'.usb.s_fifo.f_blocks d'.usb.s_block_size d' p.block p.offset ≡ ok (de, from)
      → ((i : ℕ) → i < size → de i ≡ new_entry i)
      → Listed E d' p.block p.offset (de ∷ [])
  unfolding p new_entry size
  Listed-only d' de from same fetched bytes = (
    λ e. omega (arith, e, B.inside.block_low),
    λ e. omega (arith, e, B.inside.offset_low),
    B.readable p.block B.inside.block_low B.inside.block_high,
    get_cong 4 60 (header d' p.block p.offset) de
        (λ i low high. header-same d' i same (omega arith) ∙ sym (bytes i (omega (arith, B.long)))),
    record { from = from; fetched = fetched },
    (ap (λ q. q.block) (next-null d' same), ap (λ q. q.offset) (next-null d' same)),
  )

  -- An entry is appended to a list without entries: the call succeeds, and the list is then stored from
  -- the first entry of the superblock on and has this entry alone, with the bytes that were stored.
  pub append_entry-Listed :
      (d' : Disk) × (append_entry L E filled d ≡ (ok tt, d'))
      × (d'.usb.s_del.d_file_count ≡ (d.usb.s_del.d_file_count + 1) % 2 ^ 32)
      × (de : Memory) × ((i : ℕ)
          → i < d_size (link_last d.usb.s_fifo.f_last filled)
          → de i ≡ link_last d.usb.s_fifo.f_last filled i)
      × Listed E d' d'.usb.s_fifo.f_first.r_block d'.usb.s_fifo.f_first.r_offset (de ∷ [])
  unfolding new_entry size p
  append_entry-Listed =
      let (end, returned, W) = run-Written in
      let (d', done, G) =
        finish_entry-Begun L E (here E d.usb.s_fifo size) new_entry end run.1
          (ap (λ u. u.s_fifo.f_last.r_offset) usb₂ ∙ B.last_none) in
      let A : Agrees new_entry size
          (fetch_entry E d.usb.s_fifo.f_blocks d.usb.s_block_size d' p.block p.offset) =
        fetch_entry-Written E B.ring B.small B.readable B.inside B.room refl B.long (record {
          same_usb = refl;
          bytes = λ k h.
              let q = walk d.usb.s_fifo.f_blocks d.usb.s_block_size k p in
              ap (λ m. m q.block q.offset) G.same_data ∙ W.bytes k h;
          others = λ q m. refl;
        }) in
      let first_is : at_record d'.usb.s_fifo.f_first ≡ p =
        ap at_record (G.same_first ∙ ap (λ u. u.s_fifo.f_first) usb₂) ∙ here-p in
      (
        d',
        append_entry-run
            ∙ ap (λ r. and_then (r, run.1) (finish_entry L E (here E d.usb.s_fifo size) new_entry))
                returned
            ∙ done,
        G.counted ∙ ap (λ u. (u.s_del.d_file_count + 1) % 2 ^ 32) usb₂,
        A.de,
        A.same,
        subst (λ q. Listed E d' q.block q.offset (A.de ∷ [])) (sym first_is)
            (Listed-only d' A.de A.block G.same_data
              (ap (λ n. fetch_entry E n d'.usb.s_block_size d' p.block p.offset)
                  (G.same_blocks ∙ ap (λ u. u.s_fifo.f_blocks) usb₂)
                ∙ ap (λ bs. fetch_entry E d.usb.s_fifo.f_blocks bs d' p.block p.offset)
                    (G.same_size ∙ ap (λ u. u.s_block_size) usb₂)
                ∙ A.returns)
              A.same),
      )

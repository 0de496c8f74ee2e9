-- ===== src/Undel/Ioctl/Bounds.antt =====
-- `ext3u_do_uls` stays inside the buffer that it is given.
use ext3u.Common.{
  ℕ, zero, suc, ◌+◌, ◌-◌, ◌%◌, ◌^◌, ◌≤◌, ◌<◌, ◌≡◌, refl, ◌∙◌, inl, inr, Bool, ◌&&◌, ◌||◌, not, ◌==◌,
  ltb, leb, if◌then◌else◌, Bool-cases, Memory, zeroed, get_cong, memcpy, memcpy_outside,
  memcpy-bytes, Result, ok, err, hangs, arith,
}
use ext3u.Undel.Layout.{
  InodeLayout, header_size, entry_size, d_size, d_next, d_path_length, d_uid, d_mode,
}
use ext3u.Undel.Disk.{Disk, Env}
use ext3u.Undel.Copy.{read_loop}
use ext3u.Undel.Copy.Head.{KeepsHead, read_loop-KeepsHead}
use ext3u.Undel.Links.Stored.{IsBytes}
use ext3u.Undel.Search.{permission-cases}
use ext3u.Undel.Ioctl.Room.{
  entry_room, needed-entry_room, info_size-room, entry_room-small, int_lt-le, int_sub,
}
use ext3u.Undel.Ioctl.{
  UlsInfo, InodeFields, uls_entry_bytes, int_lt, needed, info_size, put_info, put_listing, Next,
  stop, fails, goes, no_end, go_next, list_entry, uls_round, uls_loop, finish, do_uls,
}

-- The bytes from `len` on are those of the buffer.
abbrev pub Same : (len : ℕ) (buffer after : Memory) → Type 0
Same len buffer after = (j : ℕ) → len ≤ j → after j ≡ buffer j

-- What a round leaves of the buffer behind its end, and how much of it the next rounds may fill.
abbrev Inside : (len : ℕ) (buffer : Memory) → Next → Type 0
Inside len buffer (stop info) = Same len buffer info.u_buffer
Inside len buffer (fails e info) = Same len buffer info.u_buffer
Inside len buffer (goes block offset fill remaining info) =
    Same len buffer info.u_buffer × (fill + remaining ≤ len) × (info.u_ll < 2 ^ 25)
Inside len buffer no_end = Unit

put_listing-Same :
    (L : InodeLayout) (F : InodeFields) (stack de : Memory) (u_ll fill len : ℕ) (buffer : Memory)
    → fill + info_size u_ll + (d_path_length de + 1) ≤ len
    → Same len buffer (put_listing L F stack de u_ll fill buffer)
unfolding put_listing put_info
put_listing-Same L F stack de u_ll fill len buffer fits j far =
    memcpy_outside _ (fill + info_size u_ll) de (entry_size L) (d_path_length de + 1) j
      (inr (omega arith))
    ∙ elim (Bool-cases (u_ll == 1)) [
      | inl e ↦
          rw e (memcpy_outside buffer fill _ 0 uls_entry_bytes j (inr (ground (arith, fits, far))))
      | inr e ↦ rw e (memcpy_outside buffer fill de 64 2 j (inr (ground (arith, fits, far))))
    ]

go_next-Inside :
    (E : Env) (de : Memory) (from fill remaining len : ℕ) (buffer : Memory) (info : UlsInfo)
    → Same len buffer info.u_buffer
    → fill + remaining ≤ len
    → info.u_ll < 2 ^ 25
    → Inside len buffer (go_next E de from fill remaining info)
unfolding go_next
go_next-Inside E de from fill remaining len buffer info same fits few =
    let next = d_next de in
    elim (Bool-cases ((next.r_block == 0) && (next.r_offset == 0))) [
      | inl e ↦ rw e same
      | inr e ↦
          rw e (elim (Bool-cases (not (next.r_block == from) && not (E.readable next.r_block))) [
            | inl f ↦ rw f same
            | inr f ↦ rw f (same, fits, few)
          ])
    ]

list_entry-Inside :
    (L : InodeLayout) (F : InodeFields) (E : Env) (stack : Memory) (from : ℕ) (de : Memory)
    (fill left len : ℕ) (info : UlsInfo)
    → fill + info_size info.u_ll + (d_path_length de + 1) + left ≤ len
    → info.u_ll < 2 ^ 25
    → Inside len info.u_buffer (list_entry L F E stack from de fill left info)
unfolding list_entry
list_entry-Inside L F E stack from de fill left len info fits few =
    let same = put_listing-Same L F stack de info.u_ll fill len info.u_buffer (omega arith) in
    let read = info.u_read_files + 1 in
    elim (Bool-cases (ltb 0 info.u_max_files)) [
      | inl e ↦ rw e (elim (Bool-cases (leb info.u_max_files read)) [
        | inl f ↦ rw f same
        | inr f ↦ rw f (elim (Bool-cases (left == 0)) [
          | inl g ↦ rw g same
          | inr g ↦ rw g (go_next-Inside E de from _ left len info.u_buffer _ same fits few)
        ])
      ])
      | inr e ↦ rw e (elim (Bool-cases (left == 0)) [
        | inl g ↦ rw g same
        | inr g ↦ rw g (go_next-Inside E de from _ left len info.u_buffer _ same fits few)
      ])
    ]

-- What is read is listed inside the room that its header asked for.
read-Inside :
    (L : InodeLayout) (F : InodeFields) (E : Env) (stack head : Memory) (fill left len : ℕ)
    (info : UlsInfo) (r : Result (Memory × ℕ))
    → KeepsHead head header_size r
    → fill + entry_room info.u_ll head + left ≤ len
    → info.u_ll < 2 ^ 25
    → Inside len info.u_buffer (elim r [
      | ok (de, from) ↦ list_entry L F E stack from de fill left info
      | err e ↦ fails e info
      | hangs ↦ no_end
    ])
read-Inside L F E stack head fill left len info (ok (de, from)) keeps fits few =
    list_entry-Inside L F E stack from de fill left len info
      (omega (
        arith,
        info_size-room info.u_ll head,
        get_cong 2 64 de head (λ i p q. keeps i (omega arith)),
      ))
      few
read-Inside L F E stack head fill left len info (err e) keeps fits few = λ j h. refl
read-Inside L F E stack head fill left len info hangs keeps fits few = tt

uls_round-Inside :
    (L : InodeLayout) (F : InodeFields) (E : Env) (fsuid : ℕ) (stack : Memory) (d : Disk) (bs : ℕ)
    (block offset fill remaining len : ℕ) (info : UlsInfo)
    → IsBytes d
    → len < 2 ^ 31
    → fill + remaining ≤ len
    → info.u_ll < 2 ^ 25
    → Inside len info.u_buffer (uls_round L F E fsuid stack d bs block offset fill remaining info)
unfolding uls_round
uls_round-Inside L F E fsuid stack d bs block offset fill remaining len info bytes int fits few =
    let head = memcpy zeroed 0 (d.b_data block) offset header_size in
    let room = needed info.u_ll head in
    let rest = d_size head - header_size in
    let small = entry_room-small info.u_ll head few (
      memcpy-bytes zeroed 0 (d.b_data block) offset header_size (λ i. omega arith) (bytes block)) in
    let exact : room ≡ entry_room info.u_ll head = needed-entry_room info.u_ll head small in
    elim (Bool-cases (int_lt info.u_buffer_length room)) [
      | inl e ↦ rw e (λ j h. refl)
      | inr e ↦ rw e (elim (Bool-cases (int_lt remaining room)) [
        | inl f ↦ rw f (λ j h. refl)
        | inr f ↦
            let within : room ≤ remaining =
              int_lt-le remaining room (omega (arith, int, fits)) (omega (arith, exact, small)) f in
            rw f (elim (permission-cases fsuid (d_uid head) (d_mode head) 2) [
              | inl p ↦ rw p (
                  read-Inside L F E stack head fill ((remaining + 2 ^ 32 - room) % 2 ^ 32) len info
                    (read_loop E d.usb.s_fifo.f_blocks bs d (rest + 2) head header_size block
                      ((offset + header_size) % 2 ^ 16) rest)
                    (read_loop-KeepsHead E _ bs d (rest + 2) head header_size block _ rest)
                    (omega (
                      arith,
                      int_sub remaining room (omega (arith, int, fits)) within,
                      within,
                      exact,
                      fits,
                    ))
                    few)
              | inr p ↦
                  rw p
                    (go_next-Inside E head block fill remaining len _ info (λ j h. refl) fits few)
            ])
      ])
    ]

abbrev buffer_of : Result ℕ × UlsInfo → Memory
buffer_of (r, info) = info.u_buffer

uls_loop-Same :
    (L : InodeLayout) (F : InodeFields) (E : Env) (fsuid : ℕ) (stack : Memory) (d : Disk)
    (bs fuel : ℕ) (block offset fill remaining len : ℕ) (info : UlsInfo)
    → IsBytes d
    → len < 2 ^ 31
    → fill + remaining ≤ len
    → info.u_ll < 2 ^ 25
    → Same len info.u_buffer
        (uls_loop L F E fsuid stack d bs fuel block offset fill remaining info).1.u_buffer
unfolding uls_loop
uls_loop-Same L F E fsuid stack d bs zero block offset fill remaining len info bytes int fits few =
    λ j h. refl
uls_loop-Same L F E fsuid stack d bs (suc fuel) block offset fill remaining len info bytes int fits
      few =
    behind (uls_round L F E fsuid stack d bs block offset fill remaining info)
      (uls_round-Inside L F E fsuid stack d bs block offset fill remaining len info bytes int fits
        few)
      (λ b o f r i h k. uls_loop-Same L F E fsuid stack d bs fuel b o f r len i bytes int h k)
  where
    behind :
        (next : Next)
        → Inside len info.u_buffer next
        → ((b o f r : ℕ) (i : UlsInfo)
            → f + r ≤ len
            → i.u_ll < 2 ^ 25
            → Same len i.u_buffer (uls_loop L F E fsuid stack d bs fuel b o f r i).1.u_buffer)
        → Same len info.u_buffer (
            buffer_of (elim next [
              | stop info' ↦ (ok 0, info')
              | fails e info' ↦ (ok e, info')
              | no_end ↦ (hangs, info)
              | goes block' offset' fill' remaining' info' ↦
                  uls_loop L F E fsuid stack d bs fuel block' offset' fill' remaining' info'
            ]))
    behind (stop i) inside rest = inside
    behind (fails e i) inside rest = inside
    behind no_end inside rest = λ j h. refl
    behind (goes b o f r i) inside rest = λ j h. rest b o f r i inside.1 inside.2 j h ∙ inside.0 j h

finish-buffer : (r : Result ℕ × UlsInfo) → (finish r).1.u_buffer ≡ r.1.u_buffer
unfolding finish
finish-buffer (ok e, info) = refl
finish-buffer (err e, info) = refl
finish-buffer (hangs, info) = refl

-- Whatever the list holds, and wherever it stops, `ext3u_do_uls` writes no byte behind the
-- `u_buffer_length` bytes of the buffer that the request names, in a short and in a long listing, where `u_ll`
-- is less than 2 ^ 25. The buffer's length is an `int` that is not negative, and the blocks hold bytes.
pub do_uls-Same :
    (L : InodeLayout) (F : InodeFields) (E : Env) (undel_dir : Bool) (fsuid : ℕ) (stack : Memory)
    (d : Disk) (bs fuel : ℕ) (info : UlsInfo)
    → IsBytes d
    → info.u_buffer_length < 2 ^ 31
    → info.u_ll < 2 ^ 25
    → Same info.u_buffer_length info.u_buffer
        (do_uls L F E undel_dir fsuid stack d bs fuel info).1.u_buffer
unfolding do_uls
do_uls-Same L F E undel_dir fsuid stack d bs fuel info bytes int few j far =
    let fresh = (info.u_next_block == 0) && (info.u_next_offset == 0) in
    let first = d.usb.s_fifo.f_first in
    let block = if fresh then first.r_block else info.u_next_block in
    let offset = if fresh then first.r_offset else info.u_next_offset in
    elim (Bool-cases (not undel_dir || not (E.readable 0))) [
      | inl e ↦ rw e refl
      | inr e ↦ rw e (elim (Bool-cases (fresh && (d.usb.s_del.d_file_count == 0))) [
        | inl f ↦ rw f refl
        | inr f ↦ rw f (elim (Bool-cases (not (E.readable block))) [
          | inl g ↦ rw g refl
          | inr g ↦
              rw (g, finish-buffer)
                (uls_loop-Same L F E fsuid stack d bs fuel block offset 0 info.u_buffer_length
                  info.u_buffer_length _ bytes int (omega arith) few j far)
        ])
      ])
    ]

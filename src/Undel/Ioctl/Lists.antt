-- ===== src/Undel/Ioctl/Lists.antt =====
-- `ext3u_do_uls` lists the entries of the list, in their order.
use ext3u.Common.{
  ℕ, zero, suc, ◌+◌, ◌-◌, ◌^◌, ◌≤◌, ◌<◌, ◌≡◌, refl, ap, true, eq→==, ne→==, List, [], ◌∷◌, length,
  Memory, Result, ok, err, hangs, arith,
}
use ext3u.Undel.Layout.{InodeLayout, d_next, d_path_length}
use ext3u.Undel.Disk.{Disk, Env}
use ext3u.Undel.Search.Found.{Listed, header}
use ext3u.Undel.Ioctl.{UlsInfo, InodeFields, info_size, uls_loop, finish, do_uls}
use ext3u.Undel.Ioctl.Bytes.{put_all}
use ext3u.Undel.Ioctl.Room.{entry_room}
use ext3u.Undel.Ioctl.Round.{listed, room_of, AllPermitted, uls_round-last, uls_round-next}

-- The reply lists the entries: no error, no record to go on from, and the buffer holds them all.
pub record Reply (L : InodeLayout) (F : InodeFields) (stack : Memory) (des : List Memory) (fill : ℕ)
    (info : UlsInfo) (out : Result ℕ × UlsInfo) : Type 0 where
  pub returns : out.0 ≡ ok 0
  pub files : out.1.u_files ≡ info.u_files + length des
  pub end_block : out.1.u_next_block ≡ 0
  pub end_offset : out.1.u_next_offset ≡ 0
  pub same_ll : out.1.u_ll ≡ info.u_ll
  pub same_max : out.1.u_max_files ≡ info.u_max_files
  pub buffer : out.1.u_buffer ≡ put_all L F stack info.u_ll des fill info.u_buffer

-- The end of the call leaves what a reply tells.
finish-Reply :
    (L : InodeLayout) (F : InodeFields) (stack : Memory) (des : List Memory) (info : UlsInfo)
    (out : Result ℕ × UlsInfo)
    → Reply L F stack des 0 info out
    → info.u_files ≡ 0
    → ((finish out).0 ≡ ok 0)
      × ((finish out).1.u_files ≡ length des)
      × ((finish out).1.u_buffer ≡ put_all L F stack info.u_ll des 0 info.u_buffer)
      × ((finish out).1.u_next_block ≡ 0)
      × ((finish out).1.u_errcode ≡ 0)
      × ((finish out).1.u_ll ≡ info.u_ll)
      × ((finish out).1.u_max_files ≡ info.u_max_files)
unfolding finish
finish-Reply L F stack des info (ok e, i) reply none = (
  reply.returns,
  omega (arith, reply.files, none),
  reply.buffer,
  reply.end_block,
  ap code reply.returns,
  reply.same_ll,
  reply.same_max,
)
  where
    code : Result ℕ → ℕ
    code (ok e) = e
    code (err e) = e
    code hangs = 0
finish-Reply L F stack des info (err e, i) reply none = cc
finish-Reply L F stack des info (hangs, i) reply none = cc

module _ (L : InodeLayout) (F : InodeFields) (E : Env) (fsuid : ℕ) (stack : Memory) (d : Disk) where
  uls_loop-Reply :
      (fuel block offset fill remaining : ℕ) (info : UlsInfo) (de : Memory) (des : List Memory)
      → suc (length des) ≤ fuel
      → AllPermitted fsuid (de ∷ des)
      → room_of info.u_ll (de ∷ des) ≤ remaining
      → remaining ≤ info.u_buffer_length
      → info.u_buffer_length < 2 ^ 31
      → info.u_max_files ≡ 0
      → Listed E d block offset (de ∷ des)
      → Reply L F stack
          (de ∷ des)
          fill
          info
          (uls_loop L F E fsuid stack d d.usb.s_block_size fuel block offset fill remaining info)
  unfolding uls_loop put_all
  uls_loop-Reply zero block offset fill remaining info de des fuels p room fits int none l =
      absurd (omega arith)
  uls_loop-Reply (suc fuel) block offset fill remaining info de [] fuels p room fits int none l =
      rw
        (
          uls_round-last L F E fsuid stack d block offset de l.4 fill remaining info p.0 fits int
              none (omega arith) l.5.0 l.5.1,
          uls_loop,
        )
        (record {
          returns = refl;
          files = omega arith;
          end_block = refl;
          end_offset = refl;
          same_ll = refl;
          same_max = refl;
          buffer = refl;
        })
  uls_loop-Reply (suc fuel) block offset fill remaining info de (de' ∷ des) fuels p room fits int
        none l =
      let rest =
        uls_loop-Reply fuel (d_next (header d block offset)).r_block
          (d_next (header d block offset)).r_offset
          (fill + info_size info.u_ll + (d_path_length de + 1))
          (remaining - entry_room info.u_ll de) (listed L F stack de fill info) de' des
          (omega arith) p.1 (omega arith) (omega arith) int none l.5 in
      rw
        (
          uls_round-next L F E fsuid stack d block offset de l.4 fill remaining info p.0 fits int
              none (omega (arith)) l.5.0 l.5.2,
          uls_loop,
        )
        (record {
          returns = rest.returns;
          files = omega (arith, rest.files);
          end_block = rest.end_block;
          end_offset = rest.end_offset;
          same_ll = rest.same_ll;
          same_max = rest.same_max;
          buffer = rest.buffer;
        })

-- A request from the start of the list, with no limit on the files and a buffer with room for all of
-- them, is answered with the whole list: `u_files` counts the entries, the buffer holds them one
-- behind the other in the order of the list, there is no record to go on from, and the options of the
-- request are as before. The list is
-- stored from the superblock's first entry on, as many entries as it counts, its blocks can be read,
-- the user may see each entry, the buffer's length is an `int` that is not negative, and the fuel is not less than the number of entries.
pub do_uls-Reply :
    (L : InodeLayout) (F : InodeFields) (E : Env) (fsuid : ℕ) (stack : Memory) (d : Disk) (fuel : ℕ)
    (info : UlsInfo) (des : List Memory)
    → E.readable 0 ≡ true
    → d.usb.s_del.d_file_count ≡ length des
    → Listed E d d.usb.s_fifo.f_first.r_block d.usb.s_fifo.f_first.r_offset des
    → AllPermitted fsuid des
    → room_of info.u_ll des ≤ info.u_buffer_length
    → info.u_buffer_length < 2 ^ 31
    → info.u_max_files ≡ 0
    → info.u_next_block ≡ 0
    → info.u_next_offset ≡ 0
    → length des ≤ fuel
    → let (r, out) = do_uls L F E true fsuid stack d d.usb.s_block_size fuel info in
      (r ≡ ok 0)
      × (out.u_files ≡ length des)
      × (out.u_buffer ≡ put_all L F stack info.u_ll des 0 info.u_buffer)
      × (out.u_next_block ≡ 0)
      × (out.u_errcode ≡ 0)
      × (out.u_ll ≡ info.u_ll)
      × (out.u_max_files ≡ info.u_max_files)
unfolding do_uls put_all finish
do_uls-Reply L F E fsuid stack d fuel info [] super_readable counted l p room int none nb nf fuels =
    rw
      (
        super_readable,
        eq→== info.u_next_block 0 nb,
        eq→== info.u_next_offset 0 nf,
        eq→== d.usb.s_del.d_file_count 0 counted,
      )
      (refl, refl, refl, nb, refl, refl, refl)
do_uls-Reply L F E fsuid stack d fuel info (de ∷ des) super_readable counted l p room int none nb nf
      fuels =
    let first = d.usb.s_fifo.f_first in
    let reply =
      uls_loop-Reply L F E fsuid stack d fuel first.r_block first.r_offset 0 info.u_buffer_length
        (record info { u_files = 0 }) de des fuels p room (omega arith) int none l in
    rw
      (
        super_readable,
        eq→== info.u_next_block 0 nb,
        eq→== info.u_next_offset 0 nf,
        ne→== d.usb.s_del.d_file_count 0 (omega (arith, counted)),
        l.2,
      )
      (finish-Reply L F stack (de ∷ des) (record info { u_files = 0 }) _ reply refl)

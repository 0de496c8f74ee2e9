-- ===== src/Utils/Command/Whole.antt =====
-- The command and the kernel together: `uls` shows the deleted files.
use ext3u.Common.{
  ℕ, ◌≤◌, ◌≡◌, refl, ap, ◌∙◌, true, eq→==, le→ltb, List, [], map, length, Memory, zeroed, Result,
  ok, arith,
}
use ext3u.Undel.Layout.{InodeLayout}
use ext3u.Undel.Disk.{Disk, Env}
use ext3u.Undel.Search.Found.{Listed}
use ext3u.Undel.Ioctl.{UlsInfo, InodeFields, do_uls}
use ext3u.Undel.Ioctl.Round.{room_of, AllPermitted}
use ext3u.Undel.Ioctl.Lists.{do_uls-Reply}
use ext3u.Utils.Listing.{Shown, uls_info_dispatcher}
use ext3u.Utils.Listing.Shows.{AllNamed, dispatcher-put_all}
use ext3u.Utils.Command.{
  World, Answer, replied, shows, one_round, end_round, command_loop, uls_command, ioctl_buffer_size,
}

-- The kernel's answer to a uls request: the structure as `ext3u_do_uls` leaves it.
abbrev pub answer_of : Result ℕ × UlsInfo → Answer
answer_of (r, info) = replied info

-- A mount point that opens, memory for each request, and a kernel with this list; the structure is copied whole
-- to the kernel and back.
abbrev pub world_of :
    InodeLayout → InodeFields → Env → (fsuid : ℕ) (stack : Memory) → Disk → (fuel : ℕ) → World
world_of L F E fsuid stack d fuel = record {
  opens = true;
  malloc = λ n. true;
  ioctl = λ n info. answer_of (do_uls L F E true fsuid stack d d.usb.s_block_size fuel info);
}

abbrev first_request : (u_ll : ℕ) → UlsInfo
first_request u_ll = record {
  u_buffer = zeroed;
  u_buffer_length = ioctl_buffer_size;
  u_max_files = 0;
  u_read_files = 0;
  u_files = 0;
  u_errcode = 0;
  u_ll = u_ll;
  u_next_block = 0;
  u_next_offset = 0;
}

-- One request that is answered with the whole list.
command_loop-one :
    (W : World) (limit : ℕ) (info i : UlsInfo)
    → W.ioctl 0 info ≡ replied i
    → i.u_errcode ≡ 0
    → i.u_max_files ≡ 0
    → i.u_next_block ≡ 0
    → command_loop W limit 1 0 info []
      ≡ ok (uls_info_dispatcher limit i.u_buffer i.u_files i.u_ll 0)
unfolding command_loop one_round end_round
command_loop-one W limit info i answer fine any end =
    let round : one_round W limit 0 info
        ≡ shows i (uls_info_dispatcher limit i.u_buffer i.u_files i.u_ll 0) =
      rw (answer, one_round, eq→== i.u_errcode 0 fine) refl in
    let ended : (end_round i).u_next_block ≡ 0 =
      rw (le→ltb 0 i.u_max_files (omega (arith, any))) end in
    rw (round, command_loop, eq→== (end_round i).u_next_block 0 ended) refl

module _ (L : InodeLayout) (F : InodeFields) (E : Env) (fsuid : ℕ) (stack : Memory) (d : Disk)
    (limit fuel u_ll : ℕ) (des : List Memory) (ps : List (List ℕ))
    (super_readable : E.readable 0 ≡ true) (counted : d.usb.s_del.d_file_count ≡ length des)
    (stored : Listed E d d.usb.s_fifo.f_first.r_block d.usb.s_fifo.f_first.r_offset des)
    (permitted : AllPermitted fsuid des) (named : AllNamed L limit des ps)
    (room : room_of u_ll des ≤ ioctl_buffer_size) (fuels : length des ≤ fuel) where
  -- `uls` shows the paths of all entries of the list, in their order, with one request, if they fit its
  -- buffer together. The mount point opens, there is memory, and the
  -- request and the answer are copied whole; the list is stored from the superblock's
  -- first entry on, as many entries as it counts, in blocks that can be read; the user may see each
  -- entry, and each is stored with its path, whose NUL follows it.
  pub uls_command-paths :
      (shown : List Shown) × (uls_command (world_of L F E fsuid stack d fuel) limit 1 u_ll 0
        ≡ ok shown)
      × (map (λ s. s.path) shown ≡ ps)
  unfolding uls_command
  uls_command-paths =
      let reply = do_uls L F E true fsuid stack d d.usb.s_block_size fuel (first_request u_ll) in
      let (r, files, buffer, end, fine, same_ll, same_max) =
        do_uls-Reply L F E fsuid stack d fuel (first_request u_ll) des super_readable counted stored
          permitted room (omega arith) refl refl refl fuels in
      (
        _,
        command_loop-one (world_of L F E fsuid stack d fuel) limit (first_request u_ll) reply.1 refl
            fine same_max end,
        ap (map (λ s. s.path)) (λ j. uls_info_dispatcher limit (buffer j) (files j) (same_ll j) 0)
            ∙ dispatcher-put_all L F stack u_ll limit des ps 0 zeroed named,
      )

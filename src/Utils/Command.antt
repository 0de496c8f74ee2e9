-- ===== src/Utils/Command.antt =====
-- ext3u-utils/utils/uls_lib.c, `ext3u_uls_command`: the requests that the command makes until it has the
-- whole list, and what it shows. The messages on the error output are not modelled.
pub mod Whole
pub mod Endless
use ext3u.Common.{
  ℕ, zero, suc, ◌+◌, Bool, true, false, ◌&&◌, ◌||◌, not, ◌==◌, ltb, leb, if◌then◌else◌, List, [],
  ◌∷◌, ◌++◌, Memory, zeroed, Result, ok, err, hangs, enomem,
}
use ext3u.Undel.Ioctl.{UlsInfo}
use ext3u.Utils.Listing.{Shown, uls_info_dispatcher}

-- How an ioctl ends: with the structure filled, or with an error number in `errno`.
pub data Answer : Type 0 where
  replied : UlsInfo → Answer
  failed : (errno : ℕ) → Answer

-- What the command finds around it: whether the mount point can be opened, whether the calls of `malloc`
-- succeed, by their number, and how the kernel answers a request, by its number.
pub record World : Type 0 where
  pub opens : Bool
  pub malloc : ℕ → Bool
  pub ioctl : ℕ → UlsInfo → Answer

abbrev pub ioctl_buffer_size : ℕ
ioctl_buffer_size = 1024

-- What a round leaves: the request for the next one and what it shows, or the end of the command
-- because there is no memory.
pub data Round : Type 0 where
  shows : (info : UlsInfo) → List Shown → Round
  gives_up : Round

-- A round up to the cleaning of the buffer. A buffer that is too small is allocated anew.
pub one_round : World → (limit round : ℕ) → UlsInfo → Round
one_round W limit round info = elim (W.ioctl round info) [
  | failed errno ↦ shows info []
  | replied i ↦
      if i.u_errcode == 0
      then shows i (uls_info_dispatcher limit i.u_buffer i.u_files i.u_ll 0)
      else if (i.u_errcode == enomem) && not (W.malloc (suc round))
      then gives_up
      else shows i []
]

-- The end of a round: the buffer is cleaned, and the end is forced when enough files have been read.
pub end_round : UlsInfo → UlsInfo
end_round info =
    let clean = record info { u_buffer = zeroed } in
    if ltb 0 info.u_max_files && leb info.u_max_files info.u_read_files
    then record clean { u_next_block = 0 }
    else clean

-- The loop, on fuel: what is shown, or `hangs` when it goes on for longer.
pub command_loop : World → (limit fuel round : ℕ) → UlsInfo → List Shown → Result (List Shown)
unfolding end_round one_round
command_loop W limit zero round info shown = hangs
command_loop W limit (suc fuel) round info shown = elim (one_round W limit round info) [
  | gives_up ↦ ok shown
  | shows i more ↦ elim ((end_round i).u_next_block == 0) [
    | true ↦ ok (shown ++ more)
    | false ↦ command_loop W limit fuel (suc round) (end_round i) (shown ++ more)
  ]
]

-- `ext3u_uls_command`, for the option `-l` or not.
unfoldable pub uls_command : World → (limit fuel long_listing num_files : ℕ) → Result (List Shown)
unfolding command_loop
uls_command W limit fuel long_listing num_files =
    if not W.opens || not (W.malloc 0)
    then ok []
    else command_loop W limit fuel 0
        (record {
          u_buffer = zeroed;
          u_buffer_length = ioctl_buffer_size;
          u_max_files = num_files;
          u_read_files = 0;
          u_files = 0;
          u_errcode = 0;
          u_ll = long_listing;
          u_next_block = 0;
          u_next_offset = 0;
        })
        []

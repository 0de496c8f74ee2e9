-- ===== src/Utils/Tests.antt =====
-- The theorems on the user commands at concrete inputs.
use ext3u.Common.{
  ℕ, zero, suc, ◌+◌, ◌%◌, ◌^◌, ◌≤◌, ◌≡◌, refl, inl, true, ◌*◌, some, List, [], ◌∷◌, ◌++◌, map,
  get_or, zeroed, put, memcpy, ok, hangs, eio, arith,
}
use ext3u.Undel.Samples.{
  test_env, test_layout, test_fields, path_disk, path_entry, path_stored, path_permitted, path_room,
  path_length,
}
use ext3u.Undel.Ioctl.{UlsInfo}
use ext3u.Undel.Ioctl.Bytes.{put_all}
use ext3u.Undel.Ioctl.Round.{room_of}
use ext3u.Utils.Mode.{strmode}
use ext3u.Utils.Mode.Letters.{read_mode, strmode-read_mode}
use ext3u.Utils.Listing.{Shown, uls_info_dispatcher}
use ext3u.Utils.Listing.Shows.{Named, dispatcher-put_all}
use ext3u.Utils.Command.{World, failed, command_loop, uls_command, ioctl_buffer_size}
use ext3u.Utils.Command.Endless.{fails, command_loop-hangs}
use ext3u.Utils.Command.Whole.{world_of, uls_command-paths}
use ext3u.Utils.Mounts.Found.{Mount}
use ext3u.Utils.Main.{Action, title, uls}
use ext3u.Utils.Config.{get_size}
use ext3u.Utils.Config.Size.{numeral, mega, get_size-numeral}
use ext3u.Utils.Urm.{clean_path}
use ext3u.Utils.Urm.Cleaned.{clean_path-append}

abbrev test_path : List ℕ
test_path = b'/' ∷ b'a' ∷ []

path_chars : (k : ℕ) → k ≤ 2 → path_entry (76 + k) ≡ get_or test_path k 0
unfolding put memcpy
path_chars zero h = refl
path_chars (suc zero) h = refl
path_chars (suc (suc zero)) h = refl
path_chars (suc (suc (suc k))) h = absurd (omega arith)

path-Named : Named test_layout 10 path_entry test_path
path-Named = record {
  length_field = path_length;
  chars = path_chars;
  no_nul = ((λ e. omega (arith, e)), ((λ e. omega (arith, e)), tt));
  short = omega arith;
  fits = omega arith;
}

-- A file with mode 0644.
strmode-read_mode_example : read_mode (strmode 33188) ≡ 33188 % 2 ^ 12
strmode-read_mode_example = strmode-read_mode 33188

dispatcher-put_all_example :
    map
      (λ s. s.path)
      (uls_info_dispatcher 10
        (put_all test_layout test_fields zeroed 0 (path_entry ∷ []) 0 zeroed)
        1
        0
        0)
    ≡ test_path ∷ []
dispatcher-put_all_example =
    dispatcher-put_all test_layout test_fields zeroed 0 10 (path_entry ∷ []) (test_path ∷ []) 0
      zeroed (path-Named, tt)

wide_room : room_of 0 (path_entry ∷ []) ≤ ioctl_buffer_size
wide_room = omega (arith, path_room)

uls_command-paths_example :
    (shown : List Shown) × (uls_command
        (world_of test_layout test_fields test_env 0 zeroed path_disk 1)
        10
        1
        0
        0
      ≡ ok shown)
    × (map (λ s. s.path) shown ≡ test_path ∷ [])
uls_command-paths_example =
    uls_command-paths test_layout test_fields test_env 0 zeroed path_disk 10 1 0 (path_entry ∷ [])
      (test_path ∷ []) refl refl path_stored (path_permitted, tt) (path-Named, tt) wide_room
      (omega arith)

-- A kernel that refuses each request.
abbrev refusing : World
refusing = record { opens = true; malloc = λ n. true; ioctl = λ n i. failed eio }

abbrev waiting : UlsInfo
waiting = record {
  u_buffer = zeroed;
  u_buffer_length = 1024;
  u_max_files = 0;
  u_read_files = 0;
  u_files = 0;
  u_errcode = 0;
  u_ll = 0;
  u_next_block = 3;
  u_next_offset = 4;
}

command_loop-hangs_example : command_loop refusing 10 100 1 waiting [] ≡ hangs
command_loop-hangs_example =
    command_loop-hangs refusing 10 100 1 waiting [] (λ n i. fails eio) (λ e. omega (arith, e)) refl

-- The device "/d" on "/m".
abbrev test_mount : Mount
test_mount = record { device = b'/' ∷ b'd' ∷ []; mount_point = b'/' ∷ b'm' ∷ []; rest = [] }

clean_path-append_example :
    clean_path (b'/' ∷ b'm' ∷ []) ((b'/' ∷ b'm' ∷ []) ++ test_path) ≡ some test_path
clean_path-append_example = clean_path-append (b'/' ∷ b'm' ∷ []) test_path

abbrev told_actions : List ℕ → List Action
told_actions m = title m ∷ uls m 0 ∷ []

-- "12k" is 12288 bytes.
get_size-numeral_example :
    (get_size (b'1' ∷ b'2' ∷ []) ≡ some (numeral (b'1' ∷ b'2' ∷ []) 0 % 2 ^ 64))
    × (get_size ((b'1' ∷ b'2' ∷ []) ++ (b'M' ∷ []))
        ≡ some (numeral (b'1' ∷ b'2' ∷ []) 0 * 2 ^ 20 % 2 ^ 64))
get_size-numeral_example =
    get_size-numeral b'1' (b'2' ∷ []) b'M' (2 ^ 20) (refl, (refl, tt)) (mega (inl refl) refl)

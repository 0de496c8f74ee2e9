-- ===== src/Utils/Listing.antt =====
-- ext3u-utils/utils/uls_lib.c, `uls_info_dispatcher`: the entries of a buffer that the uls ioctl has
-- filled, as they are shown. What `print_uls_entry` prints of the attributes is left to the reader of the
-- decoded structure; the names of the user and the group and the calendar are the C library's.
pub mod Shows
use ext3u.Common.{
  ℕ, zero, suc, ◌+◌, ◌==◌, if◌then◌else◌, Option, none, some, List, [], ◌∷◌, Memory, get,
}
use ext3u.Undel.Ioctl.{info_size}

-- `struct ext3u_uls_entry`, as the command's copy of undel.h lays it out.
pub record UlsEntry : Type 0 where
  pub u_path_length : ℕ
  pub u_mtime : ℕ
  pub u_size : ℕ
  pub u_mode : ℕ
  pub u_uid : ℕ
  pub u_gid : ℕ
  pub u_nlink : ℕ

pub decode_entry : (at : ℕ) → Memory → UlsEntry
decode_entry at m = record {
  u_path_length = get 2 at m;
  u_mtime = get 8 (at + 8) m;
  u_size = get 4 (at + 24) m;
  u_mode = get 2 (at + 28) m;
  u_uid = get 2 (at + 30) m;
  u_gid = get 2 (at + 32) m;
  u_nlink = get 4 (at + 36) m;
}

-- What is shown of an entry: its attributes in a long listing, and its path.
pub record Shown : Type 0 where
  pub attributes : Option UlsEntry
  pub path : List ℕ

-- The string at an address, as `printf` reads it. `limit` bounds the reading.
pub c_string : (limit : ℕ) → Memory → (at : ℕ) → List ℕ
c_string zero m at = []
c_string (suc limit) m at =
    let rest = c_string limit m (at + 1) in if m at == 0 then [] else m at ∷ rest

-- `uls_info_dispatcher` from `offset` on.
unfoldable pub uls_info_dispatcher :
    (limit : ℕ) → Memory → (files_number mode offset : ℕ) → List Shown
unfolding decode_entry
uls_info_dispatcher limit buffer zero mode offset = []
uls_info_dispatcher limit buffer (suc n) mode offset =
    let path_length = get 2 offset buffer in
    let behind = offset + info_size mode in
    record {
      attributes = if mode == 1 then some (decode_entry offset buffer) else none;
      path = c_string limit buffer behind;
    }
    ∷ uls_info_dispatcher limit buffer n mode (behind + (path_length + 1))

-- ===== src/Ext3/Tests.antt =====
-- The theorems on ext3's own code at concrete inputs.
use ext3u.Common.{
  ℕ, ◌+◌, ◌*◌, ◌%◌, ◌^◌, ◌≡◌, ◌≢◌, refl, some, none, ltb, if◌then◌else◌, List, [], ◌∷◌, length, ok,
  ◌/◌, arith,
}
use ext3u.Ext3.BlockPath.{pos, block_to_path}
use ext3u.Ext3.BlockPath.Inverse.{leaf, block_to_path-leaf}
use ext3u.Ext3.Sparse.{group_sparse}
use ext3u.Ext3.Sparse.Powers.{Decides, Sparse, group_sparse-Decides}
use ext3u.Ext3.Directory.{
  DirEntry, DirFormat, search_dirblock, add_dirent_to_buf, ext3_delete_entry,
}
use ext3u.Ext3.Directory.Tiled.{IsFormat, Tiled, find, inode_of}
use ext3u.Ext3.Directory.Added.{Ended, add_dirent_to_buf-Ended}
use ext3u.Ext3.Directory.Removed.{ext3_delete_entry-search}
use ext3u.Ext3.NameHash.{tea, str2hashbuf, dirhash}
use ext3u.Ext3.NameHash.Range.{length-str2hashbuf, dirhash-even}

block_to_path-leaf_example : leaf (2 ^ 10) (block_to_path 10 (pos 2000000)) ≡ (
    if ltb 2000000 (12 + 2 ^ 10 + 2 ^ 10 * 2 ^ 10 + 2 ^ 10 * 2 ^ 10 * 2 ^ 10)
    then some 2000000
    else none)
block_to_path-leaf_example = block_to_path-leaf 10 2000000

abbrev test_name : List ℕ
test_name = b'n' ∷ b'o' ∷ b't' ∷ b'e' ∷ b's' ∷ []

length-str2hashbuf_example : length (str2hashbuf test_name 4) ≡ 4
length-str2hashbuf_example = length-str2hashbuf test_name 4

dirhash-even_example :
    (h : ℕ) × (m : ℕ) × (dirhash (λ b ws. b) 2147483647 tea none test_name ≡ some (h, m))
    × (h % 2 ≡ 0)
    × (h ≢ 2147483647 * 2)
dirhash-even_example =
    dirhash-even (λ b ws. b) 2147483647 tea none test_name (omega arith) (omega arith) (λ e. cc)

-- Group 49 has a copy of the superblock.
group_sparse-Decides_example : Decides (group_sparse 49) (Sparse 49)
group_sparse-Decides_example = group_sparse-Decides 49

-- A block of 48 bytes with the entries "." and "ab".
abbrev test_format : DirFormat
test_format = record { dir_rec_len = λ n. (n + 11) / 4 * 4; s_blocksize = 48; s_inodes_count = 100 }

test_format-IsFormat : IsFormat test_format
test_format-IsFormat = record {
  room = λ n. omega arith;
  aligned = λ n. omega arith;
  grows = λ m n h. omega arith;
}

abbrev dot_entry : DirEntry
dot_entry = record { inode = 2; rec_len = 12; name = b'.' ∷ [] }

abbrev ab_entry : DirEntry
ab_entry = record { inode = 11; rec_len = 36; name = b'a' ∷ b'b' ∷ [] }

test-Tiled : Tiled test_format 0 (dot_entry ∷ ab_entry ∷ [])
test-Tiled = (
  record {
    least = omega arith;
    fourth = omega arith;
    holds_name = omega arith;
    in_block = omega arith;
    inode_low = omega arith;
  },
  λ ne. omega arith,
  (
    record {
      least = omega arith;
      fourth = omega arith;
      holds_name = omega arith;
      in_block = omega arith;
      inode_low = omega arith;
    },
    λ ne. omega arith,
    refl,
  ),
)

-- The name "c" finds room behind "ab".
add_dirent_to_buf-Ended_example :
    Ended test_format
      (ok tt)
      (b'c' ∷ [])
      12
      (dot_entry ∷ ab_entry ∷ [])
      (add_dirent_to_buf test_format (ok tt) (b'c' ∷ []) 12 0 (dot_entry ∷ ab_entry ∷ []))
add_dirent_to_buf-Ended_example =
    add_dirent_to_buf-Ended test_format (ok tt) (b'c' ∷ []) 12 test_format-IsFormat
      (λ e. omega (arith, e)) (omega arith) (omega arith) (dot_entry ∷ ab_entry ∷ []) test-Tiled

ext3_delete_entry-search_example :
    (more : List DirEntry) × (ext3_delete_entry test_format 12 (dot_entry ∷ ab_entry ∷ [])
      ≡ ok more)
    × Tiled test_format 0 more
    × ((n : List ℕ)
        → inode_of (search_dirblock test_format n 0 more) ≡ inode_of (find n (dot_entry ∷ [])))
ext3_delete_entry-search_example =
    ext3_delete_entry-search test_format test_format-IsFormat (dot_entry ∷ []) ab_entry []
      test-Tiled

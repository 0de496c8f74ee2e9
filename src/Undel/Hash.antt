-- ===== src/Undel/Hash.antt =====
-- ext3u/undel.c, the hash of a path. `unsigned long` has `word` values: 2 ^ 64 or 2 ^ 32. A shift
-- right of the character is a division, which drops its low four bits.
pub mod Width
use ext3u.Common.{ℕ, zero, suc, ◌+◌, ◌*◌, ◌/◌, ◌%◌, ◌^◌, List, [], ◌∷◌, get_or}

-- `ext3u_partial_hash`: (prevhash + (c << 4) + (c >> 4)) * 11, in `unsigned long`.
pub partial_hash : (word c prevhash : ℕ) → ℕ
partial_hash word c prevhash = (prevhash + c * 16 + c / 16) * 11 % word

-- The loop of `ext3u_hash`: `len` characters from `name` on; behind the string stands its NUL.
pub hash_loop : (word : ℕ) (name : List ℕ) (len hash : ℕ) → ℕ
hash_loop word name zero hash = hash
hash_loop word [] (suc len) hash = hash_loop word [] len (partial_hash word 0 hash)
hash_loop word (c ∷ name) (suc len) hash = hash_loop word name len (partial_hash word c hash)

-- `ext3u_hash`: the low 32 bits.
unfoldable pub hash : (word : ℕ) (name : List ℕ) (len : ℕ) → ℕ
unfolding hash_loop partial_hash
hash word name len = hash_loop word name len 0 % 2 ^ 32

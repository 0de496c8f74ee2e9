-- ===== src/Undel/Hash/Width.antt =====
-- The hash of a path is the same on machines with long words of 32 and of 64 bits, so a list
-- written on one is read on the other.
use ext3u.Common.{ℕ, ◌+◌, ◌*◌, ◌/◌, ◌%◌, ◌^◌, ◌≡◌, refl, List, [], ◌∷◌, arith, length}
use ext3u.Undel.Hash.{partial_hash, hash_loop, hash}

-- A weighted sum of the characters, over unbounded numbers: each character counts
-- c * 16 + c / 16, times 11 for itself and for each one behind it.
unfoldable pub weight : List ℕ → ℕ → ℕ
weight [] acc = acc
weight (c ∷ name) acc = weight name ((acc + c * 16 + c / 16) * 11)

-- Both widths keep the unbounded sum modulo 2 ^ 32.
hash_loop-mod :
    (name : List ℕ) (h acc : ℕ)
    → h % 2 ^ 32 ≡ acc % 2 ^ 32
    → (hash_loop (2 ^ 64) name (length name) h % 2 ^ 32 ≡ weight name acc % 2 ^ 32)
unfolding hash_loop partial_hash weight
hash_loop-mod [] h acc e = e
hash_loop-mod (c ∷ name) h acc e = hash_loop-mod name _ _ (omega arith)

hash_loop-mod32 :
    (name : List ℕ) (h acc : ℕ)
    → h % 2 ^ 32 ≡ acc % 2 ^ 32
    → (hash_loop (2 ^ 32) name (length name) h % 2 ^ 32 ≡ weight name acc % 2 ^ 32)
unfolding hash_loop partial_hash weight
hash_loop-mod32 [] h acc e = e
hash_loop-mod32 (c ∷ name) h acc e = hash_loop-mod32 name _ _ (omega arith)

-- The hash of a whole path is the weighted sum of its characters modulo 2 ^ 32, whichever of the two
-- widths `unsigned long` has.
pub hash-weight :
    (name : List ℕ)
    → (hash (2 ^ 64) name (length name) ≡ weight name 0 % 2 ^ 32)
      × (hash (2 ^ 32) name (length name) ≡ weight name 0 % 2 ^ 32)
unfolding hash
hash-weight name = (hash_loop-mod name 0 0 refl, hash_loop-mod32 name 0 0 refl)

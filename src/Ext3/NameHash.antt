-- ===== src/Ext3/NameHash.antt =====
-- ext3u/hash.c, the hash of a name in an indexed directory. Words of 32 bits wrap. `char` is signed, as
-- on x86. `half_md4_transform` belongs to the kernel, and is a parameter.
pub mod Range
use Prim.Native.Nat.{bit_and, bit_or, bit_xor}
use mathlib.Core.List.{drop}
use ext3u.Common.{
  ℕ, zero, suc, ◌+◌, ◌-◌, ◌*◌, ◌/◌, ◌%◌, ◌^◌, min, Bool, true, false, ◌&&◌, ◌==◌, ltb,
  if◌then◌else◌, Option, none, some, List, [], ◌∷◌, length, take,
}

abbrev pub word : ℕ → ℕ
word x = x % 2 ^ 32

-- A `char` as a word, its sign extended.
abbrev pub char_word : ℕ → ℕ
char_word c = if ltb c 128 then c else c + (2 ^ 32 - 256)

abbrev pub delta : ℕ
delta = 2654435769

-- The loop of `TEA_transform`, `n` rounds.
pub tea_loop : (n sum b0 b1 a b c d : ℕ) → ℕ × ℕ
tea_loop zero sum b0 b1 a b c d = (b0, b1)
tea_loop (suc n) sum b0 b1 a b c d =
    let sum' = word (sum + delta) in
    let b0' = word (
      b0 + bit_xor (bit_xor (word (word (b1 * 16) + a)) (word (b1 + sum'))) (word (b1 / 32 + b))) in
    let b1' = word (
      b1
      + bit_xor (bit_xor (word (word (b0' * 16) + c)) (word (b0' + sum'))) (word (b0' / 32 + d))) in
    tea_loop n sum' b0' b1' a b c d

-- The four words of `buf`.
pub record Buf : Type 0 where
  pub buf0 : ℕ
  pub buf1 : ℕ
  pub buf2 : ℕ
  pub buf3 : ℕ

-- An element of a list of words, 0 past its end, which is not reached.
abbrev pub nth : List ℕ → ℕ → ℕ
nth [] i = 0
nth (x ∷ xs) zero = x
nth (x ∷ xs) (suc i) = nth xs i

-- `TEA_transform`.
pub tea_transform : Buf → (in_words : List ℕ) → Buf
unfolding tea_loop
tea_transform buf ws =
    let (b0, b1) = tea_loop 16 0 buf.buf0 buf.buf1 (nth ws 0) (nth ws 1) (nth ws 2) (nth ws 3) in
    record buf { buf0 = word (buf.buf0 + b0); buf1 = word (buf.buf1 + b1) }

-- The loop of `dx_hack_hash`.
pub hack_loop : (name : List ℕ) (hash0 hash1 : ℕ) → ℕ
hack_loop [] hash0 hash1 = hash0
hack_loop (c ∷ name) hash0 hash1 =
    let hash = word (hash1 + bit_xor hash0 (word (char_word c * 7152373))) in
    let hash' = if ltb hash (2 ^ 31) then hash else word (hash + 2 ^ 32 - 2147483647) in
    hack_loop name hash' hash0

pub dx_hack_hash : (name : List ℕ) → ℕ
unfolding hack_loop
dx_hack_hash name = word (hack_loop name 313786925 934013177 * 2)

-- `num` times `pad`.
abbrev pub pads : (num pad : ℕ) → List ℕ
pads zero pad = []
pads (suc num) pad = pad ∷ pads num pad

-- The loop of `str2hashbuf` from index `i` on, and what follows it, as the words that it stores.
pub hashbuf_loop : (pad : ℕ) (msg : List ℕ) (i val num : ℕ) → List ℕ
hashbuf_loop pad [] i val zero = []
hashbuf_loop pad [] i val (suc num) = val ∷ pads num pad
hashbuf_loop pad (c ∷ msg) i val num =
    let val' = word (char_word c + (if i % 4 == 0 then pad else val) * 256) in
    elim (i % 4 == 3) [
      | true ↦ val' ∷ hashbuf_loop pad msg (i + 1) pad (num - 1)
      | false ↦ hashbuf_loop pad msg (i + 1) val' num
    ]

-- `pad`, the length repeated in each byte.
pub pad_word : (len : ℕ) → ℕ
pad_word len = let pad = bit_or (word len) (word (len * 256)) in bit_or pad (word (pad * 2 ^ 16))

-- `str2hashbuf`; `msg` has the length `len`.
pub str2hashbuf : (msg : List ℕ) (num : ℕ) → List ℕ
unfolding hashbuf_loop pad_word
str2hashbuf msg num =
    let pad = pad_word (length msg) in hashbuf_loop pad (take (num * 4) msg) 0 pad num

-- The loops over the name, `step` bytes a round, which is not zero, so that the length is enough fuel.
pub transform_loop :
    (transform : Buf → List ℕ → Buf) (step num fuel : ℕ) (name : List ℕ) → Buf → Buf
transform_loop transform step num zero name buf = buf
transform_loop transform step num (suc fuel) [] buf = buf
transform_loop transform step num (suc fuel) (c ∷ name) buf =
    transform_loop transform step num fuel (drop_chars step (c ∷ name))
      (transform buf (str2hashbuf (c ∷ name) num))
  where
    drop_chars : ℕ → List ℕ → List ℕ
    drop_chars zero xs = xs
    drop_chars (suc n) [] = []
    drop_chars (suc n) (x ∷ xs) = drop_chars n xs

pub data HashVersion : Type 0 where
  legacy half_md4 tea unsupported : HashVersion

-- The default seed, which a seed of zeros stands for.
abbrev pub default_seed : Buf
default_seed = record { buf0 = 1732584193; buf1 = 4023233417; buf2 = 2562383102; buf3 = 271733878 }

abbrev pub seeded : (seed : Option Buf) → Buf
seeded none = default_seed
seeded (some s) =
    if (s.buf0 == 0) && (s.buf1 == 0) && (s.buf2 == 0) && (s.buf3 == 0) then default_seed else s

-- The hash and the minor hash of a supported version, before the last bit is cut off.
pub raw_hash :
    (half_md4_transform : Buf → List ℕ → Buf)
    → HashVersion
    → (seed : Option Buf) (name : List ℕ) → Option (ℕ × ℕ)
raw_hash md4 legacy seed name = some (dx_hack_hash name, 0)
raw_hash md4 half_md4 seed name =
    let buf = transform_loop md4 32 8 (length name) name (seeded seed) in some (buf.buf1, buf.buf2)
raw_hash md4 tea seed name =
    let buf = transform_loop tea_transform 16 4 (length name) name (seeded seed) in
    some (buf.buf0, buf.buf1)
raw_hash md4 unsupported seed name = none

-- `hash & ~1`, moved off the number that stands for the end of a directory. `eof` is
-- `EXT3_HTREE_EOF` of the kernel.
pub settle : (eof hash : ℕ) → ℕ
settle eof hash =
    let even = hash - hash % 2 in if even == word (eof * 2) then word ((eof - 1) * 2) else even

-- `ext3fs_dirhash`: the hash and the minor hash, or none for a version that it does not have.
pub dirhash :
    (half_md4_transform : Buf → List ℕ → Buf) (eof : ℕ)
    → HashVersion
    → (seed : Option Buf) (name : List ℕ) → Option (ℕ × ℕ)
unfolding raw_hash settle
dirhash md4 eof version seed name = elim (raw_hash md4 version seed name) [
  | none ↦ none
  | some (hash, minor_hash) ↦ some (settle eof hash, minor_hash)
]

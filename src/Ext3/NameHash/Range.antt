-- ===== src/Ext3/NameHash/Range.antt =====
-- What the callers rely on: `str2hashbuf` fills its buffer, and a hash is even and not the end mark.
use ext3u.Common.{
  ℕ, zero, suc, ◌+◌, ◌-◌, ◌*◌, ◌%◌, ◌^◌, ◌≤◌, ◌<◌, ◌≡◌, refl, ap, ◌≢◌, inl, inr, ◌==◌, Bool-cases,
  ==→eq, ==→ne, Option, some, List, [], ◌∷◌, length, take, length-take, arith,
}
use ext3u.Ext3.NameHash.{
  Buf, legacy, half_md4, tea, unsupported, pads, hashbuf_loop, str2hashbuf, HashVersion, raw_hash,
  settle, dirhash,
}

length-pads : (num pad : ℕ) → length (pads num pad) ≡ num
length-pads zero pad = refl
length-pads (suc num) pad = ap suc (length-pads num pad)

length-hashbuf_loop :
    (pad : ℕ) (msg : List ℕ) (i val num : ℕ)
    → i % 4 + length msg ≤ num * 4
    → length (hashbuf_loop pad msg i val num) ≡ num
unfolding hashbuf_loop
length-hashbuf_loop pad [] i val zero h = refl
length-hashbuf_loop pad [] i val (suc num) h = ap suc (length-pads num pad)
length-hashbuf_loop pad (c ∷ msg) i val num h = elim (Bool-cases (i % 4 == 3)) [
  | inl e ↦
      rw (e, hashbuf_loop)
        (omega (
          arith,
          ==→eq (i % 4) 3 e,
          length-hashbuf_loop pad msg (i + 1) pad (num - 1) (omega (arith, ==→eq (i % 4) 3 e)),
        ))
  | inr e ↦
      rw (e, hashbuf_loop)
        (length-hashbuf_loop pad msg (i + 1) _ num (omega (arith, ==→ne (i % 4) 3 e)))
]

-- `str2hashbuf` stores exactly `num` words, whatever the length of the name: a name that is too long is
-- cut, and a short one is padded.
pub length-str2hashbuf : (msg : List ℕ) (num : ℕ) → length (str2hashbuf msg num) ≡ num
unfolding str2hashbuf
length-str2hashbuf msg num =
    length-hashbuf_loop _ (take (num * 4) msg) 0 _ num (omega (arith, length-take (num * 4) msg))

settle-even :
    (eof hash : ℕ)
    → 0 < eof
    → eof < 2 ^ 31
    → (settle eof hash % 2 ≡ 0) × (settle eof hash ≢ eof * 2)
unfolding settle
settle-even eof hash some_eof small = elim (Bool-cases (hash - hash % 2 == (eof * 2) % 2 ^ 32)) [
  | inl e ↦ rw e (omega arith, λ h. absurd (omega arith))
  | inr e ↦ rw e (omega arith, λ h. ==→ne _ _ e (omega arith))
]

-- For each version of the hash that is supported, and whatever `half_md4_transform` computes,
-- `ext3fs_dirhash` gives a hash, and it is even and not twice the number that marks the end of a
-- directory, which is between 0 and 2 ^ 31.
pub dirhash-even :
    (md4 : Buf → List ℕ → Buf) (eof : ℕ) (version : HashVersion) (seed : Option Buf) (name : List ℕ)
    → 0 < eof
    → eof < 2 ^ 31
    → version ≢ unsupported
    → (h : ℕ) × (m : ℕ) × (dirhash md4 eof version seed name ≡ some (h, m))
      × (h % 2 ≡ 0)
      × (h ≢ eof * 2)
unfolding dirhash raw_hash
dirhash-even md4 eof legacy seed name some_eof small known =
    let (even, other) = settle-even eof _ some_eof small in (_, _, refl, even, other)
dirhash-even md4 eof half_md4 seed name some_eof small known =
    let (even, other) = settle-even eof _ some_eof small in (_, _, refl, even, other)
dirhash-even md4 eof tea seed name some_eof small known =
    let (even, other) = settle-even eof _ some_eof small in (_, _, refl, even, other)
dirhash-even md4 eof unsupported seed name some_eof small known = absurd (known refl)

-- ===== src/Undel/Copy/Header.antt =====
-- What a fetched entry has of the block: its header, byte by byte, and nothing but bytes.
use mathlib.Core.Path.{subst}
use ext3u.Common.{
  ℕ, zero, suc, ◌+◌, ◌-◌, ◌%◌, ◌^◌, ◌≤◌, ◌<◌, ◌≡◌, ap, ◌∙◌, inl, inr, Bool-cases, not, ◌&&◌, ◌==◌,
  min, Memory, zeroed, memcpy, memcpy_inside, memcpy-bytes, Result, ok, err, hangs, arith,
}
use ext3u.Undel.Layout.{d_size, header_size, sub32, block_header_size}
use ext3u.Undel.Ring.{place, IsRing, InRing, next_block}
use ext3u.Undel.Disk.{Disk, Env}
use ext3u.Undel.Copy.{read_loop, fetch_entry}
use ext3u.Undel.Copy.Written.{AllReadable}
use ext3u.Undel.Copy.Read.{ReadDone, read_loop-Fetched}

-- An entry that is returned has bytes only.
abbrev OnlyBytes : Result (Memory × ℕ) → Type 0
OnlyBytes (ok (de, from)) = (i : ℕ) → de i < 256
OnlyBytes (err e) = Unit
OnlyBytes hangs = Unit

read_loop-OnlyBytes :
    (E : Env) (n bs : ℕ) (d : Disk) (fuel : ℕ) (dest : Memory) (at b o rem : ℕ)
    → ((c i : ℕ) → d.b_data c i < 256)
    → ((i : ℕ) → dest i < 256)
    → OnlyBytes (read_loop E n bs d fuel dest at b o rem)
unfolding read_loop
read_loop-OnlyBytes E n bs d zero dest at b o rem all_bytes low = tt
read_loop-OnlyBytes E n bs d (suc fuel) dest at b o rem all_bytes low =
    let len = min (sub32 bs o) rem in
    let dest' = memcpy dest at (d.b_data b) o len in
    let low' = memcpy-bytes dest at (d.b_data b) o len low (all_bytes b) in
    elim (Bool-cases (rem == 0)) [
      | inl e ↦ rw (e, read_loop) low
      | inr e ↦ elim (Bool-cases (((o + len) % bs == 0) && not (rem - len == 0))) [
        | inr f ↦
            rw (e, f, read_loop)
              (read_loop-OnlyBytes E n bs d fuel dest' (at + len) b ((o + len) % bs) (rem - len)
                all_bytes low')
        | inl f ↦ elim (Bool-cases (E.readable (next_block n b))) [
          | inr g ↦ rw (e, f, g, read_loop) tt
          | inl g ↦
              rw (e, f, g, read_loop)
                (read_loop-OnlyBytes E n bs d fuel dest' (at + len) (next_block n b)
                  block_header_size (rem - len) all_bytes low')
        ]
      ]
    ]

pub record HeaderRead (d : Disk) (b o : ℕ) (out : Result (Memory × ℕ)) : Type 0 where
  pub de : Memory
  pub from : ℕ
  pub returns : out ≡ ok (de, from)
  pub bytes : (i : ℕ) → de i < 256
  pub header : (i : ℕ) → i < header_size → de i ≡ d.b_data b (o + i)

-- An entry whose header lies in one block is fetched, whatever its length is said to be.
pub fetch_entry-HeaderRead :
    (E : Env) {n bs : ℕ} (d : Disk) (b o : ℕ)
    → IsRing n bs
    → bs ≤ 2 ^ 16
    → AllReadable E n
    → InRing n bs (place b o)
    → o + header_size < bs
    → ((c i : ℕ) → d.b_data c i < 256)
    → HeaderRead d b o (fetch_entry E n bs d b o)
unfolding fetch_entry
fetch_entry-HeaderRead E {n} {bs} d b o ring small all inside room all_bytes = rw offset (record {
  de = rest.dest';
  from = _;
  returns = rest.returns;
  bytes = subst OnlyBytes rest.returns bounded;
  header = λ i h.
      rest.fetched.before i h
      ∙ memcpy_inside zeroed 0 (d.b_data b) o header_size i (omega arith) (omega arith)
      ∙ ap (d.b_data b) (omega arith);
})
  where
    head : Memory
    head = memcpy zeroed 0 (d.b_data b) o header_size

    offset : (o + header_size) % 2 ^ 16 ≡ o + header_size
    offset = omega arith

    rest :
        ReadDone n bs d (place b (o + header_size)) header_size (d_size head - header_size) head (
          read_loop E n bs d
            (d_size head - header_size + 2)
            head
            header_size
            b
            (o + header_size)
            (d_size head - header_size))
    rest =
        read_loop-Fetched E n bs d small (d_size head - header_size + 2) head header_size b
          (o + header_size) (d_size head - header_size) ring all (omega arith) (omega arith)

    bounded : OnlyBytes (
        read_loop E n bs d
          (d_size head - header_size + 2)
          head
          header_size
          b
          (o + header_size)
          (d_size head - header_size))
    bounded =
        read_loop-OnlyBytes E n bs d (d_size head - header_size + 2) head header_size b
          (o + header_size) (d_size head - header_size) all_bytes
          (memcpy-bytes zeroed 0 (d.b_data b) o header_size (λ i. omega arith) (all_bytes b))

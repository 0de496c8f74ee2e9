-- ===== src/Undel/Copy/RoundTrip.antt =====
-- An entry that `ext3u_save` has written is fetched again byte by byte.
use native.Mathlib.Decide.{dec_lt}
use ext3u.Common.{
  ℕ, ◌+◌, ◌-◌, ◌%◌, ◌^◌, ◌≤◌, ◌<◌, ◌≡◌, sym, ap, ◌∙◌, ◌≢◌, Memory, get_cong, zeroed, memcpy,
  memcpy_inside, Result, ok, arith,
}
use ext3u.Undel.Layout.{d_size, header_size}
use ext3u.Undel.Ring.{Place, place, IsRing, InRing, walk, ring_size}
use ext3u.Undel.Ring.Walk.{walk_within, walk_add}
use ext3u.Undel.Disk.{Disk, Env, byte_at}
use ext3u.Undel.Copy.{write_loop, read_loop, fetch_entry}
use ext3u.Undel.Copy.Written.{AllReadable, Written, write_loop-Written, end_of}
use ext3u.Undel.Copy.Read.{ReadDone, read_loop-Fetched}

-- What is fetched agrees with the entry on its `d_size` bytes.
pub record Agrees (src : Memory) (len : ℕ) (out : Result (Memory × ℕ)) : Type 0 where
  pub de : Memory
  pub block : ℕ
  pub returns : out ≡ ok (de, block)
  pub same : (i : ℕ) → i < len → de i ≡ src i

module _ (E : Env) {n bs : ℕ} {src : Memory} {b o len : ℕ} {d₀ d : Disk} (ring : IsRing n bs)
    (small : bs ≤ 2 ^ 16) (all : AllReadable E n) (inside : InRing n bs (place b o))
    (room : o + header_size < bs) (sized : d_size src ≡ len) (long : header_size ≤ len)
    (w : Written n bs src 0 (place b o) len d₀ d) where
  -- The header as it is copied first.
  head : Memory
  head = memcpy zeroed 0 (d.b_data b) o header_size

  head-same : (i : ℕ) → i < header_size → head i ≡ src i
  unfolding head
  head-same i h =
      memcpy_inside zeroed 0 (d.b_data b) o header_size i (omega arith) (omega arith)
      ∙ ap (d.b_data b) (omega arith)
      ∙ ap (byte_at d) (sym (walk_within n bs i b o (omega arith)))
      ∙ w.bytes i (omega arith)
      ∙ ap src (omega arith)

  d_size-head : d_size head ≡ len
  d_size-head = get_cong 2 0 head src (λ i p q. head-same i (omega arith)) ∙ sized

  rest : ReadDone n bs d (place b (o + header_size)) header_size (len - header_size) head (
      read_loop E n bs d
        (len - header_size + 2)
        head
        header_size
        b
        (o + header_size)
        (len - header_size))
  rest =
      read_loop-Fetched E n bs d small (len - header_size + 2) head header_size b (o + header_size)
        (len - header_size) ring all (omega arith) (omega arith)

  rest-Agrees :
      {out : Result (Memory × ℕ)}
      → ReadDone n bs d (place b (o + header_size)) header_size (len - header_size) head out
      → Agrees src len out
  rest-Agrees r = record {
    de = r.dest';
    block = _;
    returns = r.returns;
    same = λ i h. both i h (dec_lt i header_size);
  }
    where
      both : (i : ℕ) → i < len → Dec (i < header_size) → r.dest' i ≡ src i
      both i h (yes low) = r.fetched.before i low ∙ head-same i low
      both i h (no high) =
          ap r.dest' at_i
          ∙ r.fetched.bytes (i - header_size) (omega arith)
          ∙ ap (byte_at d) place_i
          ∙ w.bytes i h
          ∙ ap src (omega arith)
        where
          at_i : i ≡ header_size + (i - header_size)
          at_i = omega arith

          place_i :
              walk n bs (i - header_size) (place b (o + header_size)) ≡ walk n bs i (place b o)
          place_i =
              ap (walk n bs (i - header_size)) (sym (walk_within n bs header_size b o room))
              ∙ sym (walk_add n bs header_size (i - header_size) (place b o))
              ∙ ap (λ k. walk n bs k (place b o)) (sym at_i)

  -- Whatever wrote the bytes, an entry of `len` bytes whose header lies in one block is fetched whole.
  pub fetch_entry-Written : Agrees src len (fetch_entry E n bs d b o)
  unfolding fetch_entry head
  fetch_entry-Written = rest-Agrees (rw (d_size-head, offset) rest)
    where
      offset : (o + header_size) % 2 ^ 16 ≡ o + header_size
      offset = omega arith

-- An entry that the loop of `ext3u_save` writes, over as many blocks as it takes and round the
-- end of the ring, is fetched again byte by byte, and the write leaves every byte outside the
-- entry's places as it was. The entry states its own length, is at least a header and at most the
-- ring long, and starts where its header lies in one block; blocks have at most 2 ^ 16 bytes, can
-- be read, and the fuel is more than the length.
pub write-fetch :
    (E : Env) {n bs : ℕ} (src : Memory) (b o len fuel : ℕ) (d : Disk)
    → IsRing n bs
    → bs ≤ 2 ^ 16
    → AllReadable E n
    → InRing n bs (place b o)
    → o + header_size < bs
    → d_size src ≡ len
    → header_size ≤ len
    → len ≤ ring_size n bs
    → len < fuel
    → let (r, d') = write_loop E n bs fuel src 0 b o len 0 d in
      (r ≡ ok (end_of n bs (place b o) len 0))
      × Agrees src len (fetch_entry E n bs d' b o)
      × ((q : Place)
          → ((k : ℕ) → k < len → walk n bs k (place b o) ≢ q)
          → byte_at d' q ≡ byte_at d q)
write-fetch E {n} {bs} src b o len fuel d ring small all inside room sized long fits fuels =
    let (returns, w) =
      write_loop-Written E n bs src small fuel 0 b o len 0 d ring all inside fits fuels in
    (returns, fetch_entry-Written E ring small all inside room sized long w, w.others)

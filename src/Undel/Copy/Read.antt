-- ===== src/Undel/Copy/Read.antt =====
-- What the reading loops of `ext3u_get_first_entry`, `ext3u_search_entry` and `ext3u_do_uls` get, and
-- that it is what the writing loop of `ext3u_save` has written.
use mathlib.Core.Path.{subst}
use native.Mathlib.Decide.{dec_lt}
use ext3u.Common.{
  ℕ, zero, suc, ◌+◌, ◌-◌, ◌%◌, ◌^◌, ◌≤◌, ◌<◌, ◌≡◌, refl, sym, ap, ◌∙◌, inl, min, Bool, true, false,
  ◌==◌, ◌&&◌, not, eq→==, ne→==, Memory, memcpy, memcpy_inside, memcpy_outside, Result, ok, arith,
}
use ext3u.Undel.Layout.{sub32}
use ext3u.Undel.Ring.{Place, place, IsRing, InRing, next_block, walk}
use ext3u.Undel.Ring.Walk.{walk_within, walk_end, walk_add, walk-InRing}
use ext3u.Undel.Disk.{Disk, Env, byte_at}
use ext3u.Undel.Copy.{read_loop}
use ext3u.Undel.Copy.Written.{AllReadable}

-- The bytes on the `rem` places from `p` on stand in `dest'` from `at` on, and what is before is kept.
pub record Fetched (n bs : ℕ) (d : Disk) (p : Place) (at rem : ℕ) (dest dest' : Memory)
    : Type 0 where
  pub bytes : (k : ℕ) → k < rem → dest' (at + k) ≡ byte_at d (walk n bs k p)
  pub before : (i : ℕ) → i < at → dest' i ≡ dest i

Fetched-append :
    {n bs : ℕ} {d : Disk} {p : Place} {at i j : ℕ} {dest dest' dest'' : Memory}
    → Fetched n bs d p at i dest dest'
    → Fetched n bs d (walk n bs i p) (at + i) j dest' dest''
    → Fetched n bs d p at (i + j) dest dest''
Fetched-append {n} {bs} {d} {p} {at} {i} {j} {dest} {dest'} {dest''} f g = record {
  bytes = λ k h. both k h (dec_lt k i);
  before = λ m h. g.before m (omega arith) ∙ f.before m h;
}
  where
    both : (k : ℕ) → k < i + j → Dec (k < i) → dest'' (at + k) ≡ byte_at d (walk n bs k p)
    both k h (yes low) = g.before (at + k) (omega arith) ∙ f.bytes k low
    both k h (no high) =
        ap dest'' regroup
        ∙ g.bytes (k - i) (omega arith)
        ∙ ap (byte_at d) (sym (ap (λ m. walk n bs m p) split ∙ walk_add n bs i (k - i) p))
      where
        regroup : at + k ≡ at + i + (k - i)
        regroup = omega arith

        split : k ≡ i + (k - i)
        split = omega arith

chunk-Fetched :
    {n bs : ℕ} (d : Disk) (b o at len : ℕ) (dest : Memory)
    → o + len ≤ bs
    → Fetched n bs d (place b o) at len dest (memcpy dest at (d.b_data b) o len)
chunk-Fetched {n} {bs} d b o at len dest fits = record {
  bytes = λ k h.
      memcpy_inside dest at (d.b_data b) o len (at + k) (omega arith) (omega arith)
      ∙ ap (d.b_data b) (omega arith)
      ∙ ap (byte_at d) (sym (walk_within n bs k b o (omega arith)));
  before = λ i h. memcpy_outside dest at (d.b_data b) o len i (inl h);
}

-- The block that the loop stands in at its end.
abbrev pub last_block : (n bs : ℕ) → Place → ℕ → ℕ
last_block n bs p zero = p.block
last_block n bs p (suc k) = (walk n bs k p).block

-- The loop returns what it has fetched.
pub record ReadDone (n bs : ℕ) (d : Disk) (p : Place) (at rem : ℕ) (dest : Memory)
    (out : Result (Memory × ℕ)) : Type 0 where
  pub dest' : Memory
  pub returns : out ≡ ok (dest', last_block n bs p rem)
  pub fetched : Fetched n bs d p at rem dest dest'

and_false : (b : Bool) → (b && false) ≡ false
and_false true = refl
and_false false = refl

last_block-within : (n bs b o r : ℕ) → o + suc r ≤ bs → last_block n bs (place b o) (suc r) ≡ b
last_block-within n bs b o r fits = ap (λ q. q.block) (walk_within n bs r b o (omega arith))

last_block-append :
    (n bs i j : ℕ) (p : Place)
    → 0 < j
    → last_block n bs (walk n bs i p) j ≡ last_block n bs p (i + j)
last_block-append n bs i zero p more = absurd (omega arith)
last_block-append n bs i (suc j) p more =
    ap (λ q. q.block) (sym (walk_add n bs i j p)) ∙ ap (last_block n bs p) (sym shift)
  where
    shift : i + suc j ≡ suc (i + j)
    shift = omega arith

read_loop-zero :
    (E : Env) (n bs fuel : ℕ) (d : Disk) (dest : Memory) (at b o : ℕ)
    → 0 < fuel
    → read_loop E n bs d fuel dest at b o 0 ≡ ok (dest, b)
unfolding read_loop
read_loop-zero E n bs zero d dest at b o h = absurd (omega arith)
read_loop-zero E n bs (suc fuel) d dest at b o h = refl

module _ (E : Env) (n bs : ℕ) (d : Disk) (small : bs ≤ 2 ^ 16) where
  read_loop-last :
      (fuel : ℕ) (dest : Memory) (at b o r : ℕ)
      → o + suc r ≤ bs
      → 0 < fuel
      → read_loop E n bs d (suc fuel) dest at b o (suc r)
        ≡ ok (memcpy dest at (d.b_data b) o (suc r), b)
  unfolding read_loop
  read_loop-last fuel dest at b o r fits fuels =
      rw (ne→== (suc r) 0 (omega arith), read_loop)
        (rw (stay, read_loop)
          (rw (all_of_it, nothing_left)
            (read_loop-zero E n bs fuel d (memcpy dest at (d.b_data b) o (suc r)) (at + suc r) b
              ((o + suc r) % bs) fuels)))
    where
      all_of_it : min (sub32 bs o) (suc r) ≡ suc r
      all_of_it = omega arith

      nothing_left : suc r - suc r ≡ 0
      nothing_left = omega arith

      stay :
          (((o + min (sub32 bs o) (suc r)) % bs == 0)
            && not (suc r - min (sub32 bs o) (suc r) == 0))
          ≡ false
      stay = rw (all_of_it, nothing_left) (and_false ((o + suc r) % bs == 0))

  read_loop-fill :
      (fuel : ℕ) (dest : Memory) (at b o r : ℕ)
      → o ≤ bs
      → bs < o + suc r
      → E.readable (next_block n b) ≡ true
      → read_loop E n bs d (suc fuel) dest at b o (suc r)
        ≡ read_loop E n bs d fuel
            (memcpy dest at (d.b_data b) o (bs - o))
            (at + (bs - o))
            (next_block n b)
            4
            (suc r - (bs - o))
  unfolding read_loop
  read_loop-fill fuel dest at b o r low long fine =
      rw (ne→== (suc r) 0 (omega arith), read_loop)
        (rw (turn, read_loop) (rw (fine, read_loop) (rw room)))
    where
      room : min (sub32 bs o) (suc r) ≡ bs - o
      room = omega arith

      turn :
          (((o + min (sub32 bs o) (suc r)) % bs == 0)
            && not (suc r - min (sub32 bs o) (suc r) == 0))
          ≡ true
      turn = rw (
        room,
        eq→== ((o + (bs - o)) % bs) 0 (grind arith),
        ne→== (suc r - (bs - o)) 0 (omega arith),
      )

  -- With all blocks readable and more rounds than bytes, the loop fetches the whole range.
  pub read_loop-Fetched :
      (fuel : ℕ) (dest : Memory) (at b o rem : ℕ)
      → IsRing n bs
      → AllReadable E n
      → InRing n bs (place b o)
      → rem < fuel
      → ReadDone n bs d (place b o) at rem dest (read_loop E n bs d fuel dest at b o rem)
  read_loop-Fetched zero dest at b o rem ring all inside fuels = absurd (omega arith)
  read_loop-Fetched (suc fuel) dest at b o zero ring all inside fuels = record {
    dest' = dest;
    returns = read_loop-zero E n bs (suc fuel) d dest at b o (omega arith);
    fetched = record { bytes = λ k h. absurd (omega arith); before = λ i h. refl };
  }
  read_loop-Fetched (suc fuel) dest at b o (suc r) ring all inside fuels =
      elim (dec_lt bs (o + suc r)) [
        | no fits ↦
            let fits' : o + suc r ≤ bs = omega arith in
            record {
              dest' = memcpy dest at (d.b_data b) o (suc r);
              returns =
                  read_loop-last fuel dest at b o r fits' (omega arith)
                  ∙ ap (λ c. ok (memcpy dest at (d.b_data b) o (suc r), c))
                      (sym (last_block-within n bs b o r fits'));
              fetched = chunk-Fetched d b o at (suc r) dest fits';
            }
        | yes long ↦
            let len = bs - o in
            let dest₁ = memcpy dest at (d.b_data b) o len in
            let end : walk n bs len (place b o) ≡ place (next_block n b) 4 =
              ap (λ k. walk n bs k (place b o)) (at_least_one inside)
              ∙ walk_end n bs (len - 1) b o (omega arith) in
            let there : InRing n bs (place (next_block n b) 4) =
              subst (InRing n bs) end (walk-InRing ring len inside) in
            let rest : ReadDone n bs d (place (next_block n b) 4) (at + len) (suc r - len) dest₁
                (read_loop E n bs d fuel dest₁ (at + len) (next_block n b) 4 (suc r - len)) =
              read_loop-Fetched fuel dest₁ (at + len) (next_block n b) 4 (suc r - len) ring all
                there (omega arith) in
            let whole : len + (suc r - len) ≡ suc r = omega arith in
            record {
              dest' = rest.dest';
              returns =
                  read_loop-fill fuel dest at b o r (omega arith) long
                    (all (next_block n b) there.block_low there.block_high)
                  ∙ rest.returns
                  ∙ ap (λ c. ok (rest.dest', c))
                      (ap (λ p. last_block n bs p (suc r - len)) (sym end)
                        ∙ last_block-append n bs len (suc r - len) (place b o) (omega arith)
                        ∙ ap (last_block n bs (place b o)) whole);
              fetched =
                  subst (λ k. Fetched n bs d (place b o) at k dest rest.dest') whole
                    (Fetched-append (chunk-Fetched d b o at len dest (omega arith)) (
                      subst (λ p. Fetched n bs d p (at + len) (suc r - len) dest₁ rest.dest')
                        (sym end) rest.fetched));
            }
      ]
    where
      at_least_one : {b o : ℕ} → InRing n bs (place b o) → bs - o ≡ suc (bs - o - 1)
      at_least_one inside = omega arith

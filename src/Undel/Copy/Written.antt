-- ===== src/Undel/Copy/Written.antt =====
-- What the writing loop of `ext3u_save` leaves on the blocks.
use mathlib.Core.Path.{subst}
use native.Mathlib.Decide.{dec_lt}
use ext3u.Common.{
  ℕ, zero, suc, ◌+◌, ◌-◌, ◌^◌, ◌≤◌, ◌<◌, ◌≡◌, refl, sym, ap, ◌∙◌, ◌≢◌, inl, inr, min, true, ◌==◌,
  Bool-cases, ==→eq, eq→==, ne→==, Memory, memcpy, memcpy_inside, memcpy_outside, Result, ok, arith,
}
use ext3u.Undel.Layout.{sub32}
use ext3u.Undel.Ring.{Place, place, IsRing, InRing, next_block, walk, ring_size}
use ext3u.Undel.Ring.Walk.{walk_within, walk_end, walk_add, walk-ne, walk-InRing}
use ext3u.Undel.Disk.{Disk, Env, byte_at, set_block}
use ext3u.Undel.Copy.{write_loop}

-- Each block of the ring can be read.
abbrev pub AllReadable : Env → ℕ → Type 0
AllReadable E n = (b : ℕ) → 1 ≤ b → b ≤ n → E.readable b ≡ true

-- `rem` bytes of `src` from `s` on stand on the places from `p` on, and nothing else has changed.
pub record Written (n bs : ℕ) (src : Memory) (s : ℕ) (p : Place) (rem : ℕ) (d d' : Disk)
    : Type 0 where
  pub same_usb : d'.usb ≡ d.usb
  pub bytes : (k : ℕ) → k < rem → byte_at d' (walk n bs k p) ≡ src (s + k)
  pub others : (q : Place) → ((k : ℕ) → k < rem → walk n bs k p ≢ q) → byte_at d' q ≡ byte_at d q

place-eq : (q : Place) {b o : ℕ} → b ≡ q.block → o ≡ q.offset → place b o ≡ q
place-eq q e f i = place (e i) (f i)

module _ {n bs : ℕ} (src : Memory) (s b o : ℕ) (d : Disk) where
  -- One memcpy inside a block.
  chunk-Written :
      (len : ℕ)
      → o + len ≤ bs
      → Written n bs src s (place b o) len d (set_block b (memcpy (d.b_data b) o src s len) d)
  chunk-Written len fits = record { same_usb = refl; bytes = inside; others = outside }
    where
      inside :
          (k : ℕ)
          → k < len
          → byte_at (set_block b (memcpy (d.b_data b) o src s len) d) (walk n bs k (place b o))
            ≡ src (s + k)
      inside k h =
          rw (walk_within n bs k b o (omega arith), eq→== b b refl)
            (memcpy_inside (d.b_data b) o src s len (o + k) (omega arith) (omega arith)
              ∙ ap src (omega arith))

      outside :
          (q : Place)
          → ((k : ℕ) → k < len → walk n bs k (place b o) ≢ q)
          → byte_at (set_block b (memcpy (d.b_data b) o src s len) d) q ≡ byte_at d q
      outside q miss = elim (Bool-cases (q.block == b)) [
        | inr other ↦ rw other
        | inl same ↦
            rw same (away (==→eq q.block b same) (dec_lt q.offset o) (dec_lt q.offset (o + len)))
      ]
        where
          kept : q.block ≡ b → d.b_data b q.offset ≡ byte_at d q
          kept e = ap (λ c. d.b_data c q.offset) (sym e)

          away :
              q.block ≡ b
              → Dec (q.offset < o)
              → Dec (q.offset < o + len)
              → memcpy (d.b_data b) o src s len q.offset ≡ byte_at d q
          away e (yes low) high =
              memcpy_outside (d.b_data b) o src s len q.offset (inl low) ∙ kept e
          away e (no low) (no high) =
              memcpy_outside (d.b_data b) o src s len q.offset (inr (omega arith)) ∙ kept e
          away e (no low) (yes high) = absurd (
              miss (q.offset - o) (omega arith) (
                walk_within n bs (q.offset - o) b o (omega arith)
                ∙ place-eq q (sym e) (omega arith)))

-- Two ranges one behind the other, within one round, are one range.
Written-append :
    {n bs : ℕ} {src : Memory} {s i j : ℕ} {p : Place} {d d' d'' : Disk}
    → IsRing n bs
    → InRing n bs p
    → i + j ≤ ring_size n bs
    → Written n bs src s p i d d'
    → Written n bs src (s + i) (walk n bs i p) j d' d''
    → Written n bs src s p (i + j) d d''
Written-append {n} {bs} {src} {s} {i} {j} {p} {d} {d'} {d''} ring inside fits w w' = record {
  same_usb = w'.same_usb ∙ w.same_usb;
  bytes = λ k h. both k h (dec_lt k i);
  others = λ q miss.
      w'.others q (λ k h e. miss (i + k) (omega arith) (walk_add n bs i k p ∙ e))
      ∙ w.others q (λ k h e. miss k (omega arith) e);
}
  where
    both : (k : ℕ) → k < i + j → Dec (k < i) → byte_at d'' (walk n bs k p) ≡ src (s + k)
    both k h (yes low) =
        w'.others (walk n bs k p) (λ m g e.
          walk-ne ring k (i + m) inside (omega arith) (omega arith) (sym (walk_add n bs i m p ∙ e)))
        ∙ w.bytes k low
    both k h (no high) =
        ap (byte_at d'') (ap (λ m. walk n bs m p) split ∙ walk_add n bs i (k - i) p)
        ∙ w'.bytes (k - i) (omega arith)
        ∙ ap src (omega arith)
      where
        split : k ≡ i + (k - i)
        split = omega arith

-- The place behind the last of `rem` bytes, in its own block; `end_offset` if there is none.
abbrev pub end_of : (n bs : ℕ) → Place → (rem end_offset : ℕ) → Place
end_of n bs p zero end_offset = place p.block end_offset
end_of n bs p (suc k) end_offset = let q = walk n bs k p in place q.block (q.offset + 1)

write_loop-zero :
    (E : Env) (n bs fuel : ℕ) (src : Memory) (s b o e : ℕ) (d : Disk)
    → 0 < fuel
    → write_loop E n bs fuel src s b o 0 e d ≡ (ok (place b e), d)
unfolding write_loop
write_loop-zero E n bs zero src s b o e d h = absurd (omega arith)
write_loop-zero E n bs (suc fuel) src s b o e d h = refl

-- The loop returns the end of the range, and has written it.
abbrev pub WriteDone : (n bs : ℕ) → Memory → (s b o rem e : ℕ) → Disk → Result Place × Disk → Type 0
WriteDone n bs src s b o rem e d out =
    (out.0 ≡ ok (end_of n bs (place b o) rem e)) × Written n bs src s (place b o) rem d out.1

Written-none : {n bs : ℕ} {src : Memory} {s : ℕ} {p : Place} (d : Disk) → Written n bs src s p 0 d d
Written-none d = record {
  same_usb = refl;
  bytes = λ k h. absurd (omega arith);
  others = λ q m. refl;
}

end_of-within :
    (n bs b o rem e : ℕ)
    → 0 < rem
    → o + rem ≤ bs
    → end_of n bs (place b o) rem e ≡ place b (o + rem)
end_of-within n bs b o zero e more fits = absurd (omega arith)
end_of-within n bs b o (suc k) e more fits =
    rw (walk_within n bs k b o (omega arith)) (ap (place b) (omega arith))

end_of-append :
    (n bs i j : ℕ) (p : Place) (e f : ℕ)
    → 0 < j
    → end_of n bs (walk n bs i p) j f ≡ end_of n bs p (i + j) e
end_of-append n bs i zero p e f more = absurd (omega arith)
end_of-append n bs i (suc j) p e f more = rw (shift, walk_add n bs i j p)
  where
    shift : i + suc j ≡ suc (i + j)
    shift = omega arith

module _ (E : Env) (n bs : ℕ) (src : Memory) (small : bs ≤ 2 ^ 16) where
  -- One round: the rest of the range fits the block, or the round fills the block.
  write_loop-last :
      (fuel s b o r e : ℕ) (d : Disk)
      → o + suc r ≤ bs
      → 0 < fuel
      → write_loop E n bs (suc fuel) src s b o (suc r) e d
        ≡ (ok (place b (o + suc r)), set_block b (memcpy (d.b_data b) o src s (suc r)) d)
  unfolding write_loop
  write_loop-last fuel s b o r e d fits fuels =
      rw (ne→== (suc r) 0 (omega arith), write_loop)
        (rw (eq→== (suc r - min (sub32 bs o) (suc r)) 0 (omega arith), write_loop)
          (rw (all_of_it, nothing_left)
            (write_loop-zero E n bs fuel src (s + suc r) b o (o + suc r)
              (set_block b (memcpy (d.b_data b) o src s (suc r)) d) fuels)))
    where
      all_of_it : min (sub32 bs o) (suc r) ≡ suc r
      all_of_it = omega arith

      nothing_left : suc r - suc r ≡ 0
      nothing_left = omega arith

  write_loop-fill :
      (fuel s b o r e : ℕ) (d : Disk)
      → o ≤ bs
      → bs < o + suc r
      → E.readable (next_block n b) ≡ true
      → write_loop E n bs (suc fuel) src s b o (suc r) e d
        ≡ write_loop E n bs fuel src
            (s + (bs - o))
            (next_block n b)
            4
            (suc r - (bs - o))
            (o + (bs - o))
            (set_block b (memcpy (d.b_data b) o src s (bs - o)) d)
  unfolding write_loop
  write_loop-fill fuel s b o r e d low long fine =
      rw (ne→== (suc r) 0 (omega arith), write_loop)
        (rw (ne→== (suc r - min (sub32 bs o) (suc r)) 0 (omega arith), write_loop)
          (rw (fine, write_loop) (rw room)))
    where
      room : min (sub32 bs o) (suc r) ≡ bs - o
      room = omega arith

  -- With all blocks readable and more rounds than bytes, the loop writes the whole range.
  pub write_loop-Written :
      (fuel s b o rem e : ℕ) (d : Disk)
      → IsRing n bs
      → AllReadable E n
      → InRing n bs (place b o)
      → rem ≤ ring_size n bs
      → rem < fuel
      → WriteDone n bs src s b o rem e d (write_loop E n bs fuel src s b o rem e d)
  write_loop-Written zero s b o rem e d ring all inside round fuels = absurd (omega arith)
  write_loop-Written (suc fuel) s b o zero e d ring all inside round fuels =
      rw (write_loop-zero E n bs (suc fuel) src s b o e d (omega arith)) (refl, Written-none d)
  write_loop-Written (suc fuel) s b o (suc r) e d ring all inside round fuels =
      elim (dec_lt bs (o + suc r)) [
        | no fits ↦
            let fits' : o + suc r ≤ bs = omega arith in
            rw (write_loop-last fuel s b o r e d fits' (omega arith)) (
              ap ok (sym (end_of-within n bs b o (suc r) e (omega arith) fits')),
              chunk-Written src s b o d (suc r) fits',
            )
        | yes long ↦
            let len = bs - o in
            let d' = set_block b (memcpy (d.b_data b) o src s len) d in
            let end : walk n bs len (place b o) ≡ place (next_block n b) 4 =
              ap (λ k. walk n bs k (place b o)) (at_least_one inside)
              ∙ walk_end n bs (len - 1) b o (omega arith) in
            let there : InRing n bs (place (next_block n b) 4) =
              subst (InRing n bs) end (walk-InRing ring len inside) in
            let out =
              write_loop E n bs fuel src (s + len) (next_block n b) 4 (suc r - len) (o + len) d' in
            let d'' = out.1 in
            let (returns, written) =
              write_loop-Written fuel (s + len) (next_block n b) 4 (suc r - len) (o + len) d' ring
                all there (omega arith) (omega arith) in
            let step =
              write_loop-fill fuel s b o r e d (omega arith) long
                (all (next_block n b) there.block_low there.block_high) in
            let whole : len + (suc r - len) ≡ suc r = omega arith in
            rw step (
              returns
                  ∙ ap ok (
                      ap (λ p. end_of n bs p (suc r - len) (o + len)) (sym end)
                      ∙ end_of-append n bs len (suc r - len) (place b o) e (o + len) (omega arith)
                      ∙ ap (λ k. end_of n bs (place b o) k e) whole),
              subst (λ k. Written n bs src s (place b o) k d d'') whole
                  (Written-append ring inside (omega arith)
                    (chunk-Written src s b o d len (omega arith))
                    (subst (λ p. Written n bs src (s + len) p (suc r - len) d' d'') (sym end)
                      written)),
            )
      ]
    where
      at_least_one : {b o : ℕ} → InRing n bs (place b o) → bs - o ≡ suc (bs - o - 1)
      at_least_one inside = omega arith

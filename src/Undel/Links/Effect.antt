-- ===== src/Undel/Links/Effect.antt =====
-- What the two link updates of `ext3u_update_entry` do to the bytes of the blocks.
use ext3u.Common.{
  ℕ, ◌+◌, ◌^◌, ◌≤◌, ◌<◌, ◌≡◌, ◌∙◌, ◌⊎◌, inl, inr, Memory, get-put, put_outside, get_cong, get_shift,
  ap, get-put_disjoint, arith,
}
use ext3u.Undel.Layout.{Record, get_record, put_record}
use ext3u.Undel.Links.{mark_first}

-- A record whose fields fit their widths.
pub record Fits (r : Record) : Type 0 where
  pub block_fits : r.r_block < 2 ^ 32
  pub real_block_fits : r.r_real_block < 2 ^ 64
  pub offset_fits : r.r_offset < 2 ^ 16
  pub size_fits : r.r_size < 2 ^ 16

record-eq :
    {r s : Record}
    → r.r_block ≡ s.r_block
    → r.r_real_block ≡ s.r_real_block
    → r.r_offset ≡ s.r_offset
    → r.r_size ≡ s.r_size
    → r ≡ s
record-eq a b c d = λ i. record { r_block = a i; r_real_block = b i; r_offset = c i; r_size = d i }

-- A record read back is the one that was stored.
pub get_record-put_record :
    (at : ℕ) (r : Record) (m : Memory) → Fits r → get_record at (put_record at r m) ≡ r
unfolding get_record put_record
get_record-put_record at r m f =
    record-eq
      (get-put_disjoint 4 at 2 (at + 18) r.r_size _ (inl (omega arith))
        ∙ get-put_disjoint 4 at 2 (at + 16) r.r_offset _ (inl (omega arith))
        ∙ get-put_disjoint 4 at 8 (at + 8) r.r_real_block _ (inl (omega arith))
        ∙ get-put 4 at r.r_block m f.block_fits)
      (get-put_disjoint 8 (at + 8) 2 (at + 18) r.r_size _ (inl (omega arith))
        ∙ get-put_disjoint 8 (at + 8) 2 (at + 16) r.r_offset _ (inl (omega arith))
        ∙ get-put 8 (at + 8) r.r_real_block _ f.real_block_fits)
      (get-put_disjoint 2 (at + 16) 2 (at + 18) r.r_size _ (inl (omega arith))
        ∙ get-put 2 (at + 16) r.r_offset _ f.offset_fits)
      (get-put 2 (at + 18) r.r_size _ f.size_fits)

-- The bytes of a record stay when another record or the header of a block is stored elsewhere.
pub get_record-cong :
    (at : ℕ) (m n : Memory)
    → ((i : ℕ) → at ≤ i → i < at + 20 → m i ≡ n i)
    → get_record at m ≡ get_record at n
unfolding get_record
get_record-cong at m n same =
    record-eq (get_cong 4 at m n (λ i p q. same i p (omega arith)))
      (get_cong 8 (at + 8) m n (λ i p q. same i (omega arith) (omega arith)))
      (get_cong 2 (at + 16) m n (λ i p q. same i (omega arith) (omega arith)))
      (get_cong 2 (at + 18) m n (λ i p q. same i (omega arith) (omega arith)))

-- A record at another place.
pub get_record-shift :
    (at bt : ℕ) (m n : Memory)
    → ((k : ℕ) → k < 20 → m (at + k) ≡ n (bt + k))
    → get_record at m ≡ get_record bt n
unfolding get_record
get_record-shift at bt m n same =
    record-eq (get_shift 4 at bt m n (λ k h. same k (omega arith)))
      (get_shift 8 (at + 8) (bt + 8) m n (λ k h. moved 8 k (omega arith)))
      (get_shift 2 (at + 16) (bt + 16) m n (λ k h. moved 16 k (omega arith)))
      (get_shift 2 (at + 18) (bt + 18) m n (λ k h. moved 18 k (omega arith)))
  where
    moved : (j k : ℕ) → j + k < 20 → m (at + j + k) ≡ n (bt + j + k)
    moved j k h = ap m (omega arith) ∙ same (j + k) h ∙ ap n (omega arith)

-- A record stored touches its 20 bytes only.
pub put_record-outside :
    (at : ℕ) (r : Record) (m : Memory) (i : ℕ)
    → (i < at) ⊎ (at + 20 ≤ i)
    → put_record at r m i ≡ m i
unfolding put_record
put_record-outside at r m i out =
    put_outside 2 (at + 18) r.r_size _ i (omega arith)
    ∙ put_outside 2 (at + 16) r.r_offset _ i (omega arith)
    ∙ put_outside 8 (at + 8) r.r_real_block _ i (omega arith)
    ∙ put_outside 4 at r.r_block m i (omega arith)

-- The header of the block is all that `mark_first` touches.
pub mark_first-outside :
    (entry update : Record) (m : Memory) (i : ℕ) → 4 ≤ i → mark_first entry update m i ≡ m i
unfolding mark_first
mark_first-outside entry update m i far =
    ground (arith, put_outside 4 0 entry.r_offset m i (inr far))

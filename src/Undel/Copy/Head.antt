-- ===== src/Undel/Copy/Head.antt =====
-- The reading loop keeps what stands before the bytes that it reads.
use ext3u.Common.{
  ℕ, zero, suc, ◌+◌, ◌-◌, ◌%◌, ◌≤◌, ◌<◌, ◌≡◌, refl, ◌∙◌, inl, inr, ◌&&◌, not, ◌==◌, Bool-cases, min,
  Memory, memcpy, memcpy_outside, Result, ok, err, hangs, arith,
}
use ext3u.Undel.Layout.{sub32, block_header_size}
use ext3u.Undel.Ring.{next_block}
use ext3u.Undel.Disk.{Disk, Env}
use ext3u.Undel.Copy.{read_loop}

-- The bytes before `at` stay when an entry is read into its place from `at` on.
abbrev pub KeepsHead : (dest : Memory) (at : ℕ) → Result (Memory × ℕ) → Type 0
KeepsHead dest at (ok (de, from)) = (i : ℕ) → i < at → de i ≡ dest i
KeepsHead dest at (err e) = Unit
KeepsHead dest at hangs = Unit

KeepsHead-earlier :
    (dest mid : Memory) (at bt : ℕ) (r : Result (Memory × ℕ))
    → at ≤ bt
    → ((i : ℕ) → i < at → mid i ≡ dest i)
    → KeepsHead mid bt r
    → KeepsHead dest at r
KeepsHead-earlier dest mid at bt (ok (de, from)) le same k = λ i h. k i (omega arith) ∙ same i h
KeepsHead-earlier dest mid at bt (err e) le same k = tt
KeepsHead-earlier dest mid at bt hangs le same k = tt

pub read_loop-KeepsHead :
    (E : Env) (n bs : ℕ) (d : Disk) (fuel : ℕ) (dest : Memory) (at block offset remaining : ℕ)
    → KeepsHead dest at (read_loop E n bs d fuel dest at block offset remaining)
unfolding read_loop
read_loop-KeepsHead E n bs d zero dest at block offset remaining = tt
read_loop-KeepsHead E n bs d (suc fuel) dest at block offset remaining =
    let to_copy = min (sub32 bs offset) remaining in
    let dest' = memcpy dest at (d.b_data block) offset to_copy in
    let offset' = (offset + to_copy) % bs in
    let left = remaining - to_copy in
    let next = next_block n block in
    let later = λ (b o : ℕ).
      KeepsHead-earlier dest dest' at (at + to_copy)
        (read_loop E n bs d fuel dest' (at + to_copy) b o left) (omega arith)
        (λ i h. memcpy_outside dest at (d.b_data block) offset to_copy i (inl h))
        (read_loop-KeepsHead E n bs d fuel dest' (at + to_copy) b o left) in
    elim (Bool-cases (remaining == 0)) [
      | inl e ↦ rw (e, read_loop) (λ i h. refl)
      | inr e ↦
          rw (e, read_loop)
            (elim (Bool-cases ((offset' == 0) && not (left == 0))) [
              | inl f ↦
                  rw (f, read_loop)
                    (elim (Bool-cases (E.readable next)) [
                      | inl r ↦ rw (r, read_loop) (later next block_header_size)
                      | inr r ↦ rw (r, read_loop) tt
                    ])
              | inr f ↦ rw (f, read_loop) (later block offset')
            ])
    ]

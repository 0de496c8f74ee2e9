-- ===== src/Ext3/BlockPath/Inverse.antt =====
-- The path of a block determines the block.
use native.Mathlib.Decide.{dec_lt}
use native.Mathlib.Nat.{
  div-add-mod', div-div-eq-div-mul, div-lt_iff_lt-mul, mod-lt, mul-pos, pow-suc, one-le-pow,
}
use ext3u.Common.{
  ℕ, zero, suc, ◌+◌, ◌-◌, ◌*◌, ◌/◌, ◌%◌, ◌^◌, ◌≤◌, ◌<◌, ◌≡◌, refl, sym, ap, ◌∙◌, ltb, lt→ltb,
  le→ltb, if◌then◌else◌, ◌&&◌, ◌==◌, List, [], ◌∷◌, Option, none, some, arith,
}
use ext3u.Ext3.BlockPath.{pos, block_to_path}

-- The block that a path leads to from the inode, whose slots 0 to 11 hold direct blocks and whose slots 12, 13
-- and 14 an indirect, a double and a triple indirect one; the blocks are counted over the leaves of the tree in
-- their order. A path through another slot, or with an offset that is not one of its node, leads to none.
pub leaf : (p : ℕ) → List ℕ → Option ℕ
leaf p (b ∷ []) = if ltb b 12 then some b else none
leaf p (t ∷ a ∷ []) = if (t == 12) && ltb a p then some (12 + a) else none
leaf p (t ∷ a ∷ b ∷ []) =
    if (t == 13) && ltb a p && ltb b p then some (12 + p + (a * p + b)) else none
leaf p (t ∷ a ∷ b ∷ c ∷ []) =
    if (t == 14) && ltb a p && ltb b p && ltb c p
    then some (12 + p + p * p + ((a * p + b) * p + c))
    else none
leaf p _ = none

-- The digits of a number below the square or the cube of the base.
two_digits : (p x : ℕ) → 0 < p → x < p * p → (x / p < p) × (x % p < p) × (x / p * p + x % p ≡ x)
two_digits p x some_p h = ((div-lt_iff_lt-mul some_p).1 h, mod-lt x some_p, div-add-mod' x p)

three_digits :
    (p x : ℕ)
    → 0 < p
    → x / (p * p) < p
    → (x / p % p < p) × (x % p < p) × ((x / (p * p) * p + x / p % p) * p + x % p ≡ x)
three_digits p x some_p h = (
  mod-lt (x / p) some_p,
  mod-lt x some_p,
  ap (λ y. (y * p + x / p % p) * p + x % p) (sym (div-div-eq-div-mul x p p))
      ∙ ap (λ y. y * p + x % p) (div-add-mod' (x / p) p)
      ∙ div-add-mod' x p,
)

above : (p k x : ℕ) → 0 < k → ¬ (x / k < p) → p * k ≤ x
above p k x some_k h = elim (dec_lt x (p * k)) [
  | yes m ↦ absurd (h ((div-lt_iff_lt-mul some_k).1 m))
  | no m ↦ omega arith
]

square : (bits : ℕ) → 2 ^ (bits * 2) ≡ 2 ^ bits * 2 ^ bits
square zero = refl
square (suc bits) =
    ap (λ n. 2 ^ n) (omega arith)
    ∙ pow-suc 2 (suc (bits * 2))
    ∙ ap (λ n. n * 2) (pow-suc 2 (bits * 2) ∙ ap (λ n. n * 2) (square bits))
    ∙ omega (arith, pow-suc 2 bits, ap (λ n. n * n) (pow-suc 2 bits))

-- The path that `ext3_block_to_path` gives leads from the inode's slots to the block, each of its offsets in the range of its
-- node, and a block past the last one that the tree can hold has no path.
pub block_to_path-leaf :
    (bits b : ℕ)
    → let p = 2 ^ bits in
      leaf p (block_to_path bits (pos b))
      ≡ (if ltb b (12 + p + p * p + p * p * p) then some b else none)
unfolding leaf block_to_path
block_to_path-leaf bits b =
    let p = 2 ^ bits in
    let some_p : 0 < p = one-le-pow bits 2 (omega arith) in
    let square_p : 0 < p * p = mul-pos some_p some_p in
    let all = 12 + p + p * p + p * p * p in
    let b₂ = b - 12 - p in
    let b₃ = b₂ - p * p in
    rw (square bits) (elim (dec_lt b 12) [
      | yes h ↦ rw (lt→ltb b 12 h, lt→ltb b 12 h, lt→ltb b all (omega (arith, h))) refl
      | no h₀ ↦ elim (dec_lt (b - 12) p) [
        | yes h ↦
            rw
              (
                le→ltb b 12 (omega (arith, h₀)),
                lt→ltb (b - 12) p h,
                lt→ltb (b - 12) p h,
                lt→ltb b all (omega arith),
              )
              (ap some (omega arith))
        | no h₁ ↦ elim (dec_lt b₂ (p * p)) [
          | yes h ↦
              let (x, y, z) = two_digits p b₂ some_p h in
              rw
                (
                  le→ltb b 12 (omega arith),
                  le→ltb (b - 12) p (omega arith),
                  lt→ltb b₂ (p * p) h,
                  lt→ltb (b₂ / p) p x,
                  lt→ltb (b₂ % p) p y,
                  z,
                  lt→ltb b all (omega arith),
                )
                (ap some (omega arith))
          | no h₂ ↦ elim (dec_lt (b₃ / (p * p)) p) [
            | yes h ↦
                let (x, y, z) = three_digits p b₃ some_p h in
                rw
                  (
                    le→ltb b 12 (omega arith),
                    le→ltb (b - 12) p (omega arith),
                    le→ltb b₂ (p * p) (omega arith),
                    lt→ltb (b₃ / (p * p)) p h,
                    lt→ltb (b₃ / (p * p)) p h,
                    lt→ltb (b₃ / p % p) p x,
                    lt→ltb (b₃ % p) p y,
                    z,
                    lt→ltb b all (omega (arith, (div-lt_iff_lt-mul square_p).0 h)),
                  )
                  (ap some (omega arith))
            | no h₃ ↦
                rw
                  (
                    le→ltb b 12 (omega arith),
                    le→ltb (b - 12) p (omega arith),
                    le→ltb b₂ (p * p) (omega arith),
                    le→ltb (b₃ / (p * p)) p (omega arith),
                    le→ltb b all (omega (arith, above p (p * p) b₃ square_p h₃)),
                  )
                  refl
          ]
        ]
      ]
    ])

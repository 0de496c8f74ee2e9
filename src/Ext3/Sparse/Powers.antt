-- ===== src/Ext3/Sparse/Powers.antt =====
-- The groups with a copy of the superblock are 0, 1 and the powers of 3, 5 and 7.
use mathlib.Core.Path.{subst}
use native.Mathlib.Decide.{dec_lt}
use native.Mathlib.Nat.{pow-suc, pow-zero, one-le-pow}
use ext3u.Common.{
  ℕ, zero, suc, ◌+◌, ◌-◌, ◌*◌, ◌%◌, ◌^◌, ◌≤◌, ◌<◌, ◌≡◌, refl, sym, ap, ◌∙◌, ◌≢◌, ◌⊎◌, inl, inr,
  Bool, Bool-cases, true, false, ◌==◌, ==→eq, ==→ne, ltb, ltb→lt, lt→ltb, leb, leb→le, Result, ok,
  arith,
}
use ext3u.Ext3.Sparse.{root_loop, test_root, either, group_sparse}

-- A power of `b`, with an exponent from 1 on.
abbrev pub Power : (b a : ℕ) → Type 0
Power b a = (k : ℕ) × (a ≡ b ^ suc k)

-- What a test decides.
abbrev pub Decides : Result Bool → Type 0 → Type 0
Decides r P = ((r ≡ ok true) × P) ⊎ ((r ≡ ok false) × (¬ P))

mul_le : (x b : ℕ) → 2 ≤ b → 1 ≤ x → x < x * b
mul_le x b h k = grind arith

pow_low : (b k : ℕ) → 2 ≤ b → 1 ≤ b ^ k
pow_low b k h = one-le-pow k b (omega arith)

pow_grows : (b j d : ℕ) → 2 ≤ b → b ^ j ≤ b ^ (j + d)
pow_grows b j zero h = omega (arith, ap (λ n. b ^ n) same)
  where
    same : j + 0 ≡ j
    same = omega arith
pow_grows b j (suc d) h = omega (
  arith,
  ap (λ n. b ^ n) next,
  pow-suc b (j + d),
  mul_le (b ^ (j + d)) b h (pow_low b (j + d) h),
  pow_grows b j d h,
)
  where
    next : j + suc d ≡ suc (j + d)
    next = omega arith

pow_mono : (b j k : ℕ) → 2 ≤ b → j ≤ k → b ^ j ≤ b ^ k
pow_mono b j k h le = omega (arith, pow_grows b j (k - j) h, ap (λ n. b ^ n) split)
  where
    split : j + (k - j) ≡ k
    split = omega arith

ltb_low : (x a : ℕ) → ltb x a ≡ false → a ≤ x
ltb_low x a e = elim (dec_lt x a) [ yes y ↦ cc (e, lt→ltb x a y) | no n ↦ omega (arith, n) ]

root_loop-Decides :
    (b fuel a j : ℕ)
    → 2 ≤ b
    → 1 ≤ fuel
    → a < fuel + b ^ suc j
    → ((k : ℕ) → k < j → b ^ suc k < a)
    → Decides (root_loop b fuel a (b ^ suc j)) (Power b a)
unfolding root_loop
root_loop-Decides b zero a j h some enough below = absurd (omega arith)
root_loop-Decides b (suc fuel) a j h some enough below =
    let num = b ^ suc j in
    elim (Bool-cases (ltb num a)) [
      | inl l ↦
          rw (l, root_loop)
            (subst (λ n. Decides (root_loop b fuel a n) (Power b a)) (pow-suc b (suc j))
              (root_loop-Decides b fuel a (suc j) h (omega (arith, ltb→lt num a l))
                (omega (arith, pow-suc b (suc j), mul_le num b h (pow_low b (suc j) h)))
                (below-more (ltb→lt num a l))))
      | inr g ↦ elim (Bool-cases (num == a)) [
        | inl e ↦ rw (g, e, root_loop) (inl (refl, (j, sym (==→eq num a e))))
        | inr ne ↦ rw (g, ne, root_loop) (inr (refl, other (ltb_low num a g) (==→ne num a ne)))
      ]
    ]
  where
    below-more : b ^ suc j < a → (k : ℕ) → k < suc j → b ^ suc k < a
    below-more l k m = elim (dec_lt k j) [
      | yes y ↦ below k y
      | no n ↦ omega (arith, l, ap (λ i. b ^ suc i) (equal n))
    ]
      where
        equal : ¬ (k < j) → k ≡ j
        equal n = omega (arith, n, m)

    other : a ≤ b ^ suc j → b ^ suc j ≢ a → ¬ Power b a
    other le ne (k, e) = elim (dec_lt k j) [
      | yes y ↦ omega (arith, below k y, e)
      | no n ↦ omega (arith, le, ne, e, pow_mono b (suc j) (suc k) h (omega (arith, n)))
    ]

test_root-Decides : (a b : ℕ) → 2 ≤ b → Decides (test_root a b) (Power b a)
unfolding test_root
test_root-Decides a b h =
    subst (λ n. Decides (root_loop b (a + 1) a n) (Power b a)) first
      (root_loop-Decides b (a + 1) a 0 h (omega arith) (omega arith) (λ k m. absurd (omega arith)))
  where
    first : b ^ suc zero ≡ b
    first = pow-suc b 0 ∙ ap (λ x. x * b) (pow-zero b) ∙ omega arith

either-Decides :
    {P Q : Type 0} (r s : Result Bool) → Decides r P → Decides s Q → Decides (either r s) (P ⊎ Q)
unfolding either
either-Decides r s (inl (e, p)) d = rw (e, either) (inl (refl, inl p))
either-Decides r s (inr (e, np)) (inl (f, q)) = rw (e, f, either) (inl (refl, inr q))
either-Decides {P} {Q} r s (inr (e, np)) (inr (f, nq)) = rw (e, f, either) (inr (refl, neither))
  where
    neither : ¬ (P ⊎ Q)
    neither (inl p) = np p
    neither (inr q) = nq q

-- A power of an odd number is odd.
pow_odd : (b k : ℕ) → ((x : ℕ) → x % 2 ≡ 1 → x * b % 2 ≡ 1) → b ^ k % 2 ≡ 1
pow_odd b zero times = ap (λ x. x % 2) (pow-zero b)
pow_odd b (suc k) times = ap (λ x. x % 2) (pow-suc b k) ∙ times (b ^ k) (pow_odd b k times)

leb_high : (x a : ℕ) → leb x a ≡ false → a < x
leb_high x a e = ground (arith, e)

-- The group is 0 or 1, or a power of 7, 5 or 3.
abbrev pub Sparse : ℕ → Type 0
Sparse group = (group ≤ 1) ⊎ ((Power 7 group ⊎ Power 5 group) ⊎ Power 3 group)

odd-Power : (g : ℕ) → (Power 7 g ⊎ Power 5 g) ⊎ Power 3 g → g % 2 ≡ 1
odd-Power g (inl (inl (k, e))) = ap (λ x. x % 2) e ∙ pow_odd 7 (suc k) (λ x h. omega arith)
odd-Power g (inl (inr (k, e))) = ap (λ x. x % 2) e ∙ pow_odd 5 (suc k) (λ x h. omega arith)
odd-Power g (inr (k, e)) = ap (λ x. x % 2) e ∙ pow_odd 3 (suc k) (λ x h. omega arith)

large-Decides :
    (g : ℕ) (r : Result Bool)
    → 1 < g
    → Decides r ((Power 7 g ⊎ Power 5 g) ⊎ Power 3 g)
    → Decides r (Sparse g)
large-Decides g r h (inl (e, p)) = inl (e, inr p)
large-Decides g r h (inr (e, np)) = inr (e, none)
  where
    none : ¬ Sparse g
    none (inl le) = omega (arith, le, h)
    none (inr p) = np p

-- `ext3_group_sparse` ends for each group, and says that there is a copy of the superblock exactly in the
-- groups 0 and 1 and in the powers of 3, 5 and 7.
pub group_sparse-Decides : (group : ℕ) → Decides (group_sparse group) (Sparse group)
unfolding group_sparse
group_sparse-Decides g = elim (Bool-cases (leb g 1)) [
  | inl l ↦ rw (l, group_sparse) (inl (refl, inl (leb→le g 1 l)))
  | inr l ↦ elim (Bool-cases (g % 2 == 0)) [
    | inl e ↦
        rw (l, e, group_sparse)
          (large-Decides g (ok false) (leb_high g 1 l)
            (inr (refl, λ p. omega (arith, odd-Power g p, ==→eq (g % 2) 0 e))))
    | inr e ↦
        rw (l, e, group_sparse)
          (large-Decides g _ (leb_high g 1 l) (
            either-Decides _ (test_root g 3)
              (either-Decides (test_root g 7) (test_root g 5) (test_root-Decides g 7 (omega arith))
                (test_root-Decides g 5 (omega arith)))
              (test_root-Decides g 3 (omega arith))))
  ]
]

-- ===== src/Common/Bytes.antt =====
-- C memory: a buffer, a block or a struct is a function from offsets to bytes. A field of `w` bytes
-- is read and written little-endian, as on the machines that the module is built for.
use Prim.Native.Nat.{ℕ, zero, suc, ◌+◌, ◌-◌, ◌*◌, ◌/◌, ◌%◌, ◌^◌, ◌<◌, ◌≤◌}
use mathlib.Core.Path.{◌≡◌, refl, ap, ◌∙◌}
use mathlib.Core.Logic.{◌⊎◌, inl, inr}
use mathlib.Core.Bool.{◌&&◌}
use native.Mathlib.Omega.{arith}
use native.Mathlib.Nat.{pow-suc}
use ext3u.Common.Tests.{ltb, leb, Bool-cases, ◌==◌, if◌then◌else◌}

abbrev pub Memory : Type 0
Memory = ℕ → ℕ

-- `memset(p, 0, n)` of a whole buffer.
abbrev pub zeroed : Memory
zeroed i = 0

-- One byte stored.
abbrev pub poke : Memory → ℕ → ℕ → Memory
poke m at v i = if i == at then v else m i

-- The field of `w` bytes at offset `at`.
unfoldable pub get : ℕ → ℕ → Memory → ℕ
get zero at m = 0
get (suc w) at m = m at + 256 * get w (at + 1) m

-- The field of `w` bytes at offset `at` set to `v`, which is cut to the width.
unfoldable pub put : ℕ → ℕ → ℕ → Memory → Memory
put zero at v m = m
put (suc w) at v m = poke (put w (at + 1) (v / 256) m) at (v % 256)

-- `memcpy(dst + d, src + s, n)`.
unfoldable pub memcpy : Memory → ℕ → Memory → ℕ → ℕ → Memory
memcpy dst d src s n i = if leb d i && ltb i (d + n) then src (s + (i - d)) else dst i

-- A store touches the bytes of its field only.
pub put_outside : (w at v : ℕ) (m : Memory) (i : ℕ) → (i < at) ⊎ (at + w ≤ i) → put w at v m i ≡ m i
unfolding put
put_outside zero at v m i out = refl
put_outside (suc w) at v m i out = ground (arith, put_outside w (at + 1) (v / 256) m i)

-- A field depends on its own bytes only.
pub get_cong :
    (w at : ℕ) (m n : Memory)
    → ((i : ℕ) → at ≤ i → i < at + w → m i ≡ n i)
    → get w at m ≡ get w at n
unfolding get
get_cong zero at m n same = refl
get_cong (suc w) at m n same = omega (
  arith,
  same at (omega arith) (omega arith),
  get_cong w (at + 1) m n (λ i p q. same i (omega arith) (omega arith)),
)

pub get-put_disjoint :
    (w at u bt v : ℕ) (m : Memory)
    → (at + w ≤ bt) ⊎ (bt + u ≤ at)
    → get w at (put u bt v m) ≡ get w at m
get-put_disjoint w at u bt v m apart =
    get_cong w at (put u bt v m) m (λ i p q. put_outside u bt v m i (omega arith))

-- A field read back is the stored value, if that fits the width.
pub get-put : (w at v : ℕ) (m : Memory) → v < 256 ^ w → get w at (put w at v m) ≡ v
unfolding get put
get-put zero at v m fits = omega arith
get-put (suc w) at v m fits = omega (arith, head, tail, get-put w (at + 1) (v / 256) m small)
  where
    power : 256 ^ suc w ≡ 256 ^ w * 256
    power = pow-suc 256 w

    small : v / 256 < 256 ^ w
    small = omega (arith, power)

    head : poke (put w (at + 1) (v / 256) m) at (v % 256) at ≡ v % 256
    head = ground arith

    tail :
        get w (at + 1) (poke (put w (at + 1) (v / 256) m) at (v % 256))
        ≡ get w (at + 1) (put w (at + 1) (v / 256) m)
    tail = get_cong w (at + 1) _ _ (λ i p q. ground arith)

-- Fields of bytes below 256 are below their width.
pub get-lt : (w at : ℕ) (m : Memory) → ((i : ℕ) → m i < 256) → get w at m < 256 ^ w
unfolding get
get-lt zero at m bytes = omega arith
get-lt (suc w) at m bytes = omega (arith, bytes at, get-lt w (at + 1) m bytes, pow-suc 256 w)

-- A copy gives the source's bytes inside the range, and keeps the others.
pub memcpy_inside :
    (dst : Memory) (d : ℕ) (src : Memory) (s n i : ℕ)
    → d ≤ i
    → i < d + n
    → memcpy dst d src s n i ≡ src (s + (i - d))
unfolding memcpy
memcpy_inside dst d src s n i p q = ground arith

pub memcpy_outside :
    (dst : Memory) (d : ℕ) (src : Memory) (s n i : ℕ)
    → (i < d) ⊎ (d + n ≤ i)
    → memcpy dst d src s n i ≡ dst i
unfolding memcpy
memcpy_outside dst d src s n i out = ground arith

-- Bytes stay bytes.
pub put-bytes : (w at v : ℕ) (m : Memory) → ((i : ℕ) → m i < 256) → (i : ℕ) → put w at v m i < 256
unfolding put
put-bytes zero at v m bytes i = bytes i
put-bytes (suc w) at v m bytes i = ground (arith, put-bytes w (at + 1) (v / 256) m bytes i)

pub memcpy-bytes :
    (dst : Memory) (d : ℕ) (src : Memory) (s n : ℕ)
    → ((i : ℕ) → dst i < 256)
    → ((i : ℕ) → src i < 256)
    → (i : ℕ) → memcpy dst d src s n i < 256
unfolding memcpy
memcpy-bytes dst d src s n low high i = elim (Bool-cases (leb d i && ltb i (d + n))) [
  | inl e ↦ rw e (high (s + (i - d)))
  | inr e ↦ rw e (low i)
]

-- A field of equal bytes at another place.
pub get_shift :
    (w at bt : ℕ) (m n : Memory)
    → ((k : ℕ) → k < w → m (at + k) ≡ n (bt + k))
    → get w at m ≡ get w bt n
unfolding get
get_shift zero at bt m n same = refl
get_shift (suc w) at bt m n same =
    let first : m at ≡ n bt = ap m (omega arith) ∙ same 0 (omega arith) ∙ ap n (omega arith) in
    omega (
      arith,
      first,
      get_shift w (at + 1) (bt + 1) m n
          (λ k h. ap m (omega arith) ∙ same (suc k) (omega arith) ∙ ap n (omega arith)),
    )

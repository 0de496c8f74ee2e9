-- ===== src/Utils/Mode/Letters.antt =====
-- The letters tell the permissions.
use ext3u.Common.{
  ℕ, ◌+◌, ◌*◌, ◌/◌, ◌%◌, ◌^◌, ◌≡◌, refl, inl, inr, Bool, true, false, ◌||◌, ◌==◌, ==→eq, ==→ne,
  if◌then◌else◌, Bool-cases, List, ◌∷◌, arith,
}
use ext3u.Utils.Mode.{has_bit, letter, exec_letter, strmode}

abbrev value : Bool → ℕ
value set = if set then 1 else 0

-- The bits that a reader of the letters finds in a group: its first two, and the third with the special
-- one, given by the two letters for it.
abbrev pub plain : ℕ → ℕ
plain c = if c == b'-' then 0 else 1

abbrev pub exec_bit : (both c : ℕ) → ℕ
exec_bit both c = value ((c == b'x') || (c == both))

abbrev pub special_bit : (both only c : ℕ) → ℕ
special_bit both only c = value ((c == both) || (c == only))

-- The permissions that a reader of an `ls` line finds in its letters.
pub read_mode : List ℕ → ℕ
read_mode (f ∷ r ∷ w ∷ x ∷ r' ∷ w' ∷ x' ∷ r'' ∷ w'' ∷ x'' ∷ rest) =
    special_bit b's' b'S' x * 2 ^ 11
    + special_bit b's' b'S' x' * 2 ^ 10
    + special_bit b't' b'T' x'' * 2 ^ 9
    + plain r * 2 ^ 8
    + plain w * 2 ^ 7
    + exec_bit b's' x * 2 ^ 6
    + plain r' * 2 ^ 5
    + plain w' * 2 ^ 4
    + exec_bit b's' x' * 2 ^ 3
    + plain r'' * 2 ^ 2
    + plain w'' * 2
    + exec_bit b't' x''
read_mode _ = 0

value-bit : (k mode : ℕ) → value (has_bit k mode) ≡ mode / 2 ^ k % 2
value-bit k mode = elim (Bool-cases (has_bit k mode)) [
  | inl e ↦ rw e (omega (arith, ==→eq _ _ e))
  | inr e ↦ rw e (omega (arith, ==→ne _ _ e))
]

plain-r : (set : Bool) → plain (letter set b'r') ≡ value set
plain-r true = refl
plain-r false = refl

plain-w : (set : Bool) → plain (letter set b'w') ≡ value set
plain-w true = refl
plain-w false = refl

exec-s : (special exec : Bool) → exec_bit b's' (exec_letter special exec b's' b'S') ≡ value exec
exec-s true true = refl
exec-s true false = refl
exec-s false true = refl
exec-s false false = refl

special-s :
    (special exec : Bool)
    → special_bit b's' b'S' (exec_letter special exec b's' b'S') ≡ value special
special-s true true = refl
special-s true false = refl
special-s false true = refl
special-s false false = refl

exec-t : (special exec : Bool) → exec_bit b't' (exec_letter special exec b't' b'T') ≡ value exec
exec-t true true = refl
exec-t true false = refl
exec-t false true = refl
exec-t false false = refl

special-t :
    (special exec : Bool)
    → special_bit b't' b'T' (exec_letter special exec b't' b'T') ≡ value special
special-t true true = refl
special-t true false = refl
special-t false true = refl
special-t false false = refl

-- The letters of a mode tell its twelve permission bits, whichever type the file has.
pub strmode-read_mode : (mode : ℕ) → read_mode (strmode mode) ≡ mode % 2 ^ 12
unfolding strmode read_mode
strmode-read_mode mode =
    let b = λ (k : ℕ). has_bit k mode in
    omega (
      arith,
      special-s (b 11) (b 6),
      special-s (b 10) (b 3),
      special-t (b 9) (b 0),
      plain-r (b 8),
      plain-w (b 7),
      exec-s (b 11) (b 6),
      plain-r (b 5),
      plain-w (b 4),
      exec-s (b 10) (b 3),
      plain-r (b 2),
      plain-w (b 1),
      exec-t (b 9) (b 0),
      value-bit 0 mode,
      value-bit 1 mode,
      value-bit 2 mode,
      value-bit 3 mode,
      value-bit 4 mode,
      value-bit 5 mode,
      value-bit 6 mode,
      value-bit 7 mode,
      value-bit 8 mode,
      value-bit 9 mode,
      value-bit 10 mode,
      value-bit 11 mode,
    )

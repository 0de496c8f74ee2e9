-- ===== src/Utils/Config/Size.antt =====
-- The sizes that `get_size` reads.
use mathlib.Core.List.{append-nil}
use native.Mathlib.Nat.{mul-add-mod_self_left, div-add-mod}
use ext3u.Common.{
  ℕ, ◌+◌, ◌-◌, ◌*◌, ◌/◌, ◌%◌, sym, ◌^◌, ◌≡◌, ◌⊎◌, refl, ap, ◌∙◌, true, false, Bool-cases, inl, inr,
  none, some, List, [], ◌∷◌, ◌++◌, arith,
}
use ext3u.Utils.Config.{isdigit, digits_loop, unit_of, with_unit, get_size}

-- The number that a string of digits stands for, behind the number before it.
abbrev pub numeral : List ℕ → (before : ℕ) → ℕ
numeral [] before = before
numeral (c ∷ s) before = numeral s (before * 10 + (c - b'0'))

abbrev pub AllDigits : List ℕ → Type 0
AllDigits [] = Unit
AllDigits (c ∷ s) = (isdigit c ≡ true) × AllDigits s

-- A letter for a unit is no digit.
abbrev StopsDigits : List ℕ → Type 0
StopsDigits [] = Unit
StopsDigits (c ∷ s) = isdigit c ≡ false

digits_loop-stops : (t : List ℕ) (value : ℕ) → StopsDigits t → digits_loop t value ≡ (value, t)
unfolding digits_loop
digits_loop-stops [] value stops = refl
digits_loop-stops (c ∷ t) value stops = rw stops refl

digits_loop-numeral :
    (s t : List ℕ) (value before : ℕ)
    → AllDigits s
    → StopsDigits t
    → value ≡ before % 2 ^ 64
    → digits_loop (s ++ t) value ≡ (numeral s before % 2 ^ 64, t)
unfolding digits_loop
digits_loop-numeral [] t value before digits stops e =
    digits_loop-stops t value stops ∙ ap (λ k. (k, t)) e
digits_loop-numeral (c ∷ s) t value before digits stops e =
    rw (digits.0, digits_loop)
      (digits_loop-numeral s t _ (before * 10 + (c - b'0')) digits.1 stops
        (ground (arith, digits.0, e)))

-- A factor of a value that is cut to a width.
times-mod : (a f m : ℕ) → a % m * f % m ≡ a * f % m
times-mod a f m =
    sym (mul-add-mod_self_left m (a / m * f) (a % m * f))
    ∙ ap (λ k. k % m) (spread (a / m) (a % m) ∙ ap (λ k. k * f) (div-add-mod a m))
  where
    spread : (q r : ℕ) → m * (q * f) + r * f ≡ (m * q + r) * f
    spread q r = grind arith

-- The letters and what they stand for, as the usage message lists the sizes: gigabytes, megabytes and kilobytes
-- by powers of 2, blocks of 512 bytes and words of 2.
pub data Multiplies : (letter factor : ℕ) → Type 0 where
  giga : {u factor : ℕ} → (u ≡ b'G') ⊎ (u ≡ b'g') → factor ≡ 2 ^ 30 → Multiplies u factor
  mega : {u factor : ℕ} → (u ≡ b'M') ⊎ (u ≡ b'm') → factor ≡ 2 ^ 20 → Multiplies u factor
  kilo : {u factor : ℕ} → (u ≡ b'K') ⊎ (u ≡ b'k') → factor ≡ 2 ^ 10 → Multiplies u factor
  blocks : {u factor : ℕ} → u ≡ b'b' → factor ≡ 512 → Multiplies u factor
  words : {u factor : ℕ} → u ≡ b'w' → factor ≡ 2 → Multiplies u factor

unit_of-Multiplies : {u factor : ℕ} → Multiplies u factor → unit_of u ≡ some factor
unfolding unit_of
unit_of-Multiplies (giga (inl e) f) = rw (e, f) refl
unit_of-Multiplies (giga (inr e) f) = rw (e, f) refl
unit_of-Multiplies (mega (inl e) f) = rw (e, f) refl
unit_of-Multiplies (mega (inr e) f) = rw (e, f) refl
unit_of-Multiplies (kilo (inl e) f) = rw (e, f) refl
unit_of-Multiplies (kilo (inr e) f) = rw (e, f) refl
unit_of-Multiplies (blocks e f) = rw (e, f) refl
unit_of-Multiplies (words e f) = rw (e, f) refl

digit-no_unit : (u : ℕ) → isdigit u ≡ true → unit_of u ≡ none
unfolding unit_of
digit-no_unit u e = ground (arith, e)

unit-StopsDigits : (u factor : ℕ) → unit_of u ≡ some factor → StopsDigits (u ∷ [])
unit-StopsDigits u factor unit = elim (Bool-cases (isdigit u)) [
  | inr e ↦ e
  | inl e ↦ cc (sym (digit-no_unit u e) ∙ unit)
]

get_size-loop :
    (c : ℕ) (s : List ℕ)
    → isdigit c ≡ true
    → get_size (c ∷ s) ≡ with_unit (digits_loop (c ∷ s) 0).0 (digits_loop (c ∷ s) 0).1
unfolding get_size
get_size-loop c s e = rw e refl

get_size-stops :
    (c : ℕ) (s t : List ℕ)
    → AllDigits (c ∷ s)
    → StopsDigits t
    → get_size ((c ∷ s) ++ t) ≡ with_unit (numeral (c ∷ s) 0 % 2 ^ 64) t
get_size-stops c s t digits stops =
    get_size-loop c (s ++ t) digits.0
    ∙ ap (λ r. with_unit r.0 r.1) (digits_loop-numeral (c ∷ s) t 0 0 digits stops refl)

-- `get_size` reads a string of digits as the number that it stands for, and with a letter for a unit behind it
-- as that many units, in both cases modulo 2 ^ 64.
pub get_size-numeral :
    (c : ℕ) (s : List ℕ) (u factor : ℕ)
    → AllDigits (c ∷ s)
    → Multiplies u factor
    → (get_size (c ∷ s) ≡ some (numeral (c ∷ s) 0 % 2 ^ 64))
      × (get_size ((c ∷ s) ++ (u ∷ [])) ≡ some (numeral (c ∷ s) 0 * factor % 2 ^ 64))
unfolding with_unit
get_size-numeral c s u factor digits letter = (
  ap (λ w. get_size (c ∷ w)) (sym (append-nil s)) ∙ get_size-stops c s [] digits tt,
  let unit = unit_of-Multiplies letter in
      get_size-stops c s (u ∷ []) digits (unit-StopsDigits u factor unit)
      ∙ (rw (unit, with_unit) (ap some (times-mod (numeral (c ∷ s) 0) factor (2 ^ 64)))),
)

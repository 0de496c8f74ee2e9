-- ===== src/Utils/Config.antt =====
-- ext3u-utils/utils/uconfig.c: `get_size`, the size that the option `-s` takes. The rest of the command prints only.
pub mod Size
use ext3u.Common.{
  ℕ, ◌+◌, ◌-◌, ◌*◌, ◌%◌, ◌^◌, Bool, true, false, ◌&&◌, ◌||◌, ◌==◌, leb, if◌then◌else◌, Option, none,
  some, List, [], ◌∷◌,
}

-- `isdigit`.
abbrev pub isdigit : ℕ → Bool
isdigit c = leb b'0' c && leb c b'9'

-- The loop over the digits: the value in 64 bits, and the rest of the string.
unfoldable pub digits_loop : List ℕ → (value : ℕ) → ℕ × List ℕ
digits_loop [] value = (value, [])
digits_loop (c ∷ s) value =
    let rest = digits_loop s ((value * 10 + c - b'0') % 2 ^ 64) in
    if isdigit c then rest else (value, c ∷ s)

-- What the letter behind the digits multiplies the value by.
unfoldable pub unit_of : ℕ → Option ℕ
unit_of c =
    if (c == b'G') || (c == b'g')
    then some 1073741824
    else if (c == b'M') || (c == b'm')
    then some 1048576
    else if (c == b'K') || (c == b'k')
    then some 1024
    else if c == b'b'
    then some 512
    else if c == b'w'
    then some 2
    else none

-- The switch on the letter, and the test that nothing follows it.
unfoldable pub with_unit : (value : ℕ) → List ℕ → Option ℕ
unfolding unit_of
with_unit value [] = some value
with_unit value (c ∷ []) = elim (unit_of c) [
  | none ↦ none
  | some factor ↦ some (value * factor % 2 ^ 64)
]
with_unit value (c ∷ d ∷ s) = none

-- `get_size`: the size, or `none` for -1.
unfoldable pub get_size : List ℕ → Option ℕ
unfolding digits_loop with_unit
get_size [] = none
get_size (c ∷ s) =
    let (value, rest) = digits_loop (c ∷ s) 0 in if isdigit c then with_unit value rest else none

-- ===== src/Utils/Mode.antt =====
-- ext3u-utils/utils/uls_lib.c, the letters of a file's mode: `ftypelet` and `strmode`. The bits are
-- those of Linux: `S_IFMT` is the four bits from 2 ^ 12 on, the permissions are the twelve below.
pub mod Letters
use ext3u.Common.{ℕ, ◌/◌, ◌%◌, ◌^◌, Bool, ◌==◌, if◌then◌else◌, List, [], ◌∷◌}

-- `mode & 2 ^ k`.
abbrev pub has_bit : (k mode : ℕ) → Bool
has_bit k mode = mode / 2 ^ k % 2 == 1

-- `ftypelet`.
pub ftypelet : (bits : ℕ) → ℕ
ftypelet bits =
    let format = bits / 2 ^ 12 % 16 in
    if format == 8
    then b'-'
    else if format == 4
    then b'd'
    else if format == 6
    then b'b'
    else if format == 2
    then b'c'
    else if format == 10
    then b'l'
    else if format == 1
    then b'p'
    else if format == 12
    then b's'
    else b'?'

-- One letter of `strmode`: `letter` if the bit is set.
abbrev pub letter : (set : Bool) (letter : ℕ) → ℕ
letter set l = if set then l else b'-'

-- The third letter of a group, which shows the special bit of the group as well.
abbrev pub exec_letter : (special exec : Bool) (both only : ℕ) → ℕ
exec_letter special exec both only =
    if special then (if exec then both else only) else (if exec then b'x' else b'-')

-- `strmode`: the eleven characters before the NUL.
pub strmode : (mode : ℕ) → List ℕ
unfolding ftypelet
strmode mode =
    ftypelet mode
    ∷ letter (has_bit 8 mode) b'r'
    ∷ letter (has_bit 7 mode) b'w'
    ∷ exec_letter (has_bit 11 mode) (has_bit 6 mode) b's' b'S'
    ∷ letter (has_bit 5 mode) b'r'
    ∷ letter (has_bit 4 mode) b'w'
    ∷ exec_letter (has_bit 10 mode) (has_bit 3 mode) b's' b'S'
    ∷ letter (has_bit 2 mode) b'r'
    ∷ letter (has_bit 1 mode) b'w'
    ∷ exec_letter (has_bit 9 mode) (has_bit 0 mode) b't' b'T'
    ∷ b' '
    ∷ []

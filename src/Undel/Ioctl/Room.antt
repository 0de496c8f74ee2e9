-- ===== src/Undel/Ioctl/Room.antt =====
-- The room of an entry in the buffer of `ext3u_do_uls`, where its number fits an `int`.
use ext3u.Common.{ℕ, ◌+◌, ◌*◌, ◌-◌, ◌%◌, ◌^◌, ◌≤◌, ◌<◌, ◌≡◌, false, ==→eq, Memory, get-lt, arith}
use ext3u.Undel.Layout.{d_path_length}
use ext3u.Undel.Ioctl.{uls_entry_size, ull_entry_size, info_size, int_lt, needed}

-- The room as a number without a bound.
abbrev pub entry_room : (u_ll : ℕ) → Memory → ℕ
entry_room u_ll de = uls_entry_size + (d_path_length de + 1) + u_ll * ull_entry_size

pub needed-entry_room :
    (u_ll : ℕ) (de : Memory) → entry_room u_ll de < 2 ^ 31 → needed u_ll de ≡ entry_room u_ll de
unfolding needed
needed-entry_room u_ll de small = omega (arith, small)

pub info_size-room :
    (u_ll : ℕ) (de : Memory) → info_size u_ll + (d_path_length de + 1) ≤ entry_room u_ll de
info_size-room u_ll de = ground (arith, ==→eq u_ll 1)

-- For less than 2 ^ 25 attributes of a path with 16 bits for its length the number fits.
pub entry_room-small :
    (u_ll : ℕ) (de : Memory) → u_ll < 2 ^ 25 → ((i : ℕ) → de i < 256) → entry_room u_ll de < 2 ^ 31
entry_room-small u_ll de few bytes = omega (arith, get-lt 2 64 de bytes)

pub int_lt-le : (a b : ℕ) → a < 2 ^ 31 → b < 2 ^ 31 → int_lt a b ≡ false → b ≤ a
int_lt-le a b h k e = ground (arith, h, k, e)

pub le-int_lt : (a b : ℕ) → a < 2 ^ 31 → b ≤ a → int_lt a b ≡ false
le-int_lt a b h k = ground (arith, h, k)

pub int_sub : (a b : ℕ) → a < 2 ^ 31 → b ≤ a → (a + 2 ^ 32 - b) % 2 ^ 32 ≡ a - b
int_sub a b h k = omega (arith, h, k)

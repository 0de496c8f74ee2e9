-- ===== src/Common/Errno.antt =====
-- The error numbers that the code returns, and the result of a function that may fail with one:
-- `err n` is the pointer `ERR_PTR(-n)` or the code `-n`, and `hangs` a loop that goes on after as many
-- rounds as its bound allows.
use Prim.Native.Nat.{ℕ}
use mathlib.Core.Path.{◌≡◌, refl}
use mathlib.Core.Logic.{◌⊎◌, inl, inr}

abbrev pub eperm : ℕ
eperm = 1

abbrev pub enoent : ℕ
enoent = 2

abbrev pub eio : ℕ
eio = 5

abbrev pub enomem : ℕ
enomem = 12

abbrev pub eexist : ℕ
eexist = 17

abbrev pub enodata : ℕ
enodata = 61

abbrev pub eopnotsupp : ℕ
eopnotsupp = 95

pub data Result {ℓ} (A : Type ℓ) : Type ℓ where
  ok : A → Result A
  err : ℕ → Result A
  hangs : Result A

pub Result-cases {ℓ} :
    {A : Type ℓ} (r : Result A) → ((a : A) × (r ≡ ok a)) ⊎ (((e : ℕ) × (r ≡ err e)) ⊎ (r ≡ hangs))
Result-cases (ok a) = inl (a, refl)
Result-cases (err e) = inr (inl (e, refl))
Result-cases hangs = inr (inr refl)

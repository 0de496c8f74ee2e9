-- ===== src/Undel/Disk.antt =====
-- The buffers of the undelete file, as the functions of ext3u/undel.c share them. A buffer head is
-- the number of its block: a write through one is seen by each later read of the block. Block 0 is
-- the superblock.
use ext3u.Common.{ℕ, Bool, ◌==◌, if◌then◌else◌, Memory, Result, ok, err, hangs, eio}
use ext3u.Undel.Layout.{SuperBlock}
use ext3u.Undel.Ring.{Place}

pub record Disk : Type 0 where
  pub usb : SuperBlock
  pub b_data : ℕ → Memory

-- What the block layer and the journal decide during a call: whether `ext3_bread` returns a buffer
-- for a block and with which error it fails otherwise, the physical number `b_blocknr` of a block,
-- and whether `ext3_journal_start` returns a handle.
pub record Env : Type 0 where
  pub readable : ℕ → Bool
  pub bread_errno : ℕ → ℕ
  pub b_blocknr : ℕ → ℕ
  pub journal : Bool
  pub journal_errno : ℕ

-- The byte at a place, and a block replaced.
abbrev pub byte_at : Disk → Place → ℕ
byte_at d p = d.b_data p.block p.offset

abbrev pub set_block : ℕ → Memory → Disk → Disk
set_block b m d = record d { b_data = λ c. if c == b then m else d.b_data c }

-- A function on the buffers with its result.
abbrev pub M : Type 0 → Type 0
M A = Disk → Result A × Disk

abbrev pub return : {A : Type 0} → A → M A
return a d = (ok a, d)

abbrev pub fail : {A : Type 0} → ℕ → M A
fail e d = (err e, d)

abbrev pub and_then : {A B : Type 0} → Result A × Disk → (A → M B) → Result B × Disk
and_then (ok a, d) k = k a d
and_then (err e, d) k = (err e, d)
and_then (hangs, d) k = (hangs, d)

infixl 5 ◌>>=◌ ◌>>◌
abbrev pub ◌>>=◌ : {A B : Type 0} → M A → (A → M B) → M B
◌>>=◌ m f d = and_then (m d) f

abbrev pub ◌>>◌ : {B : Type 0} → M (Unit {0}) → M B → M B
m >> k = m >>= λ _. k

-- `bh = ext3_bread(…, block, …); if (!bh) return ERR_PTR(-EIO);`
abbrev pub bread : Env → ℕ → M (Unit {0})
bread E b d = if E.readable b then (ok tt, d) else (err eio, d)

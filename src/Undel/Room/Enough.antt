-- ===== src/Undel/Room/Enough.antt =====
-- `ext3u_free_old_entries` ends, and where it succeeds there is room.
use ext3u.Common.{ℕ, ◌+◌, ◌≡◌, false, List, [], ◌++◌, length, Memory, Result, ok, err}
use ext3u.Undel.Layout.{InodeLayout}
use ext3u.Undel.Ring.{Place}
use ext3u.Undel.Disk.{Disk, Env}
use ext3u.Undel.Links.Steps.{IsList}
use ext3u.Undel.Room.{too_full}
use ext3u.Undel.Room.Intact.{Intact}

-- How the loop ends on a list: some entries at its start are gone and the others are linked as before, and
-- there is room for the new entry, or the call fails.
pub data Ended (L : InodeLayout) (E : Env) (de : Memory) (before : ℕ) (all : List Place)
    : Result (List Memory) × Disk → Type 0 where
  made_room :
      (gone left : List Place) (freed : List Memory) (d' : Disk)
      → all ≡ gone ++ left
      → length freed ≡ length gone + before
      → IsList E d' left
      → too_full L d'.usb de ≡ false
      → Ended L E de before all (ok freed, d')
  failed :
      (e : ℕ) (gone left : List Place) (d' : Disk)
      → all ≡ gone ++ left
      → IsList E d' left
      → Ended L E de before all (err e, d')

pub empty-IsList : (E : Env) (d : Disk) → IsList E d []
empty-IsList E d = record {
  headers = record {
    readable = λ q h. absurd h;
    low = λ q h. absurd h;
    apart = λ p q h k. absurd h;
  };
  distinct = tt;
  linked = tt;
}

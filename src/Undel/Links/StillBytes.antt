-- ===== src/Undel/Links/StillBytes.antt =====
-- The link updates of ext3u/undel.c store bytes.
use ext3u.Common.{
  ℕ, ◌+◌, ◌<◌, inl, inr, Bool, true, false, ◌&&◌, not, ◌==◌, Bool-cases, Memory, get, put-bytes,
  Result, ok, err, hangs, if◌then◌else◌,
}
use ext3u.Undel.Layout.{Record, put_record, fifo_null, d_next, d_previous}
use ext3u.Undel.Disk.{Disk, Env, set_block, and_then}
use ext3u.Undel.Super.{Update, update_previous, update_next, update_add, update_delete}
use ext3u.Undel.Links.{mark_first, update_entry, relink_next, relink_previous, delete_entry}
use ext3u.Undel.Links.Stored.{IsBytes}

put_record-bytes :
    (at : ℕ) (r : Record) (m : Memory) → ((i : ℕ) → m i < 256) → (i : ℕ) → put_record at r m i < 256
unfolding put_record
put_record-bytes at r m bytes = put-bytes 2 (at + 18) r.r_size _ (
    put-bytes 2 (at + 16) r.r_offset _
      (put-bytes 8 (at + 8) r.r_real_block _ (put-bytes 4 at r.r_block m bytes)))

mark_first-bytes :
    (entry update : Record) (m : Memory)
    → ((i : ℕ) → m i < 256)
    → (i : ℕ) → mark_first entry update m i < 256
unfolding mark_first
mark_first-bytes entry update m bytes i =
    elim (Bool-cases (not (update.r_block == entry.r_block) && not (get 4 0 m == entry.r_offset))) [
      | inl e ↦ rw e (put-bytes 4 0 entry.r_offset m bytes i)
      | inr e ↦ rw e (bytes i)
    ]

set_block-IsBytes :
    (b : ℕ) (m : Memory) (d : Disk) → ((i : ℕ) → m i < 256) → IsBytes d → IsBytes (set_block b m d)
set_block-IsBytes b m d new bytes c i = elim (Bool-cases (c == b)) [
  | inl e ↦ rw e (new i)
  | inr e ↦ rw e (bytes c i)
]

-- Two guards that leave the disk as it is.
guarded-IsBytes :
    (a b : Bool) (d : Disk) (r₁ r₂ : Result (Unit {0})) (out : Result (Unit {0}) × Disk)
    → IsBytes d
    → IsBytes out.1
    → IsBytes (if a then (r₁, d) else if b then (r₂, d) else out).1
guarded-IsBytes true b d r₁ r₂ out bytes done = bytes
guarded-IsBytes false true d r₁ r₂ out bytes done = bytes
guarded-IsBytes false false d r₁ r₂ out bytes done = done

pub update_entry-IsBytes :
    (E : Env) (handle : Bool) (entry update : Record) (flag : Update) (d : Disk)
    → IsBytes d
    → IsBytes (update_entry E handle entry update flag d).1
unfolding update_entry
update_entry-IsBytes E handle entry update update_next d bytes =
    guarded-IsBytes (not handle && not E.journal) (not (E.readable entry.r_block)) d _ _ _ bytes (
      set_block-IsBytes entry.r_block _ d (put_record-bytes _ update _ (bytes entry.r_block)) bytes)
update_entry-IsBytes E handle entry update update_previous d bytes =
    guarded-IsBytes (not handle && not E.journal) (not (E.readable entry.r_block)) d _ _ _ bytes (
      set_block-IsBytes entry.r_block _ d
        (mark_first-bytes entry update _ (put_record-bytes _ update _ (bytes entry.r_block))) bytes)
update_entry-IsBytes E handle entry update update_add d bytes =
    guarded-IsBytes (not handle && not E.journal) (not (E.readable entry.r_block)) d _ _ _ bytes
      bytes
update_entry-IsBytes E handle entry update update_delete d bytes =
    guarded-IsBytes (not handle && not E.journal) (not (E.readable entry.r_block)) d _ _ _ bytes
      bytes

guarded_once-IsBytes :
    (a : Bool) (d : Disk) (r : Result (Unit {0})) (out : Result (Unit {0}) × Disk)
    → IsBytes d
    → IsBytes out.1
    → IsBytes (if a then (r, d) else out).1
guarded_once-IsBytes a d r out bytes done = guarded-IsBytes false a d r r out bytes done

and_then-IsBytes :
    (out : Result (Unit {0}) × Disk) (k : Disk → Result (Unit {0}) × Disk)
    → IsBytes out.1
    → ((d : Disk) → IsBytes d → IsBytes (k d).1)
    → IsBytes (and_then out (λ x. k)).1
and_then-IsBytes (ok a, d) k bytes go = go d bytes
and_then-IsBytes (err e, d) k bytes go = bytes
and_then-IsBytes (hangs, d) k bytes go = bytes

pub delete_entry-IsBytes :
    (E : Env) (de : Memory) (d : Disk) → IsBytes d → IsBytes (delete_entry E de d).1
unfolding delete_entry relink_next relink_previous
delete_entry-IsBytes E de d bytes =
    and_then-IsBytes (relink_next E de d) (relink_previous E de)
      (guarded_once-IsBytes (fifo_null (d_next de)) d _ _ bytes
        (update_entry-IsBytes E false (d_next de) (d_previous de) update_previous d bytes))
      (λ d' bytes'.
        guarded_once-IsBytes (fifo_null (d_previous de)) d' _ _ bytes'
          (update_entry-IsBytes E false (d_previous de) (d_next de) update_next d' bytes'))

-- ===== src/Undel/Links.antt =====
-- ext3u/undel.c, the links between entries: `ext3u_update_entry` and `ext3u_delete_entry`. The
-- journal handle itself is not modelled: a call without one needs that the journal starts one.
pub mod Effect
pub mod Chain
pub mod Stored
pub mod Fields
pub mod Relink
pub mod Unlink
pub mod Steps
pub mod StillBytes
use ext3u.Common.{
  ℕ, ◌+◌, Bool, true, false, ◌&&◌, not, ◌==◌, if◌then◌else◌, Memory, get, put, Result, ok, err,
  hangs, enodata,
}
use ext3u.Undel.Layout.{Record, fifo_null, put_record, d_next, d_previous, d_next_at, d_previous_at}
use ext3u.Undel.Disk.{Disk, Env, M, ◌>>=◌, ◌>>◌, return, set_block}
use ext3u.Undel.Super.{Update, update_previous, update_next, update_add, update_delete}

-- The header of the block, the offset of the first entry that starts in it: set to `offset`, if the
-- new previous entry stands in another block and the header has another value.
pub mark_first : (entry update : Record) → Memory → Memory
mark_first entry update m =
    if not (update.r_block == entry.r_block) && not (get 4 0 m == entry.r_offset)
    then put 4 0 entry.r_offset m
    else m

-- `ext3u_update_entry`. `handle` says whether the caller passes one. A failure is the error number of
-- the journal, of `ext3_bread`, or `ENODATA` (which the code returns without its sign).
pub update_entry : Env → (handle : Bool) → (entry update : Record) → Update → M (Unit {0})
unfolding mark_first put_record
update_entry E handle entry update flag d =
    if not handle && not E.journal
    then (err E.journal_errno, d)
    else if not (E.readable entry.r_block)
    then (err (E.bread_errno entry.r_block), d)
    else elim flag [
      | update_next ↦ (
        ok tt,
        set_block entry.r_block
            (put_record (entry.r_offset + d_next_at) update (d.b_data entry.r_block)) d,
      )
      | update_previous ↦ (
        ok tt,
        set_block entry.r_block
            (mark_first entry update
              (put_record (entry.r_offset + d_previous_at) update (d.b_data entry.r_block)))
            d,
      )
      | _ ↦ (err enodata, d)
    ]

-- `ext3u_delete_entry`: the next entry gets the previous one, and the other way round.
pub relink_next : Env → Memory → M (Unit {0})
unfolding update_entry
relink_next E de d =
    if fifo_null (d_next de)
    then (ok tt, d)
    else update_entry E false (d_next de) (d_previous de) update_previous d

pub relink_previous : Env → Memory → M (Unit {0})
unfolding update_entry
relink_previous E de d =
    if fifo_null (d_previous de)
    then (ok tt, d)
    else update_entry E false (d_previous de) (d_next de) update_next d

unfoldable pub delete_entry : Env → Memory → M (Unit {0})
delete_entry E de = relink_next E de >> relink_previous E de

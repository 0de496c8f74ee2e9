-- ===== src/Undel/Urm/Taken.antt =====
-- A call of `ext3u_urm` that restores a file takes its entry out of the list.
use ext3u.Common.{ℕ, ◌+◌, ◌<◌, ◌≡◌, refl, ap, Bool, true, Option, some, List, ◌∷◌, ◌++◌, Memory, ok}
use ext3u.Undel.Layout.{SuperBlock, get_record, d_next, d_previous, d_next_at, d_previous_at}
use ext3u.Undel.Ring.{Place}
use ext3u.Undel.Disk.{Disk}
use ext3u.Undel.Super.{update_superblock, update_delete}
use ext3u.Undel.Links.{delete_entry}
use ext3u.Undel.Links.Chain.{Distinct, Linked}
use ext3u.Undel.Links.Fields.{next_of, prev_of, Headers}
use ext3u.Undel.Links.Unlink.{null_place, delete_entry-Linked}
use ext3u.Undel.Search.{get_entry}
use ext3u.Undel.Urm.{
  Setting, split_path, choose_directory, may_restore, forget, make_file, restore_at, restore_entry,
  find_and_restore, urm,
}

-- The way of a call up to the list: the entry is found, its path is split, the directory is chosen and
-- allowed, and the file is made in it.
pub record Restores {V : Type 0} (C : Setting V) (d : Disk) (path : List ℕ)
    (place : Option (List ℕ)) (v v' : V) (de : Memory) : Type 0 where
  pub entries : ℕ
  pub dir : List ℕ
  pub name : List ℕ
  pub dir_path : List ℕ
  pub may_create : Bool
  pub undel_dir : (C.vfs.tree v).iget C.undel_dir_ino ≡ true
  pub journal : C.env.journal ≡ true
  pub found : get_entry C.layout C.env C.hash C.fsuid path d ≡ ok (de, entries)
  pub split : split_path C.layout de ≡ some (dir, name)
  pub chosen : choose_directory C v dir place ≡ ok (dir_path, may_create)
  pub allowed : may_restore C v dir_path may_create ≡ ok tt
  pub made : make_file C v dir_path name de ≡ (ok tt, v')

module _ {V : Type 0} {C : Setting V} {d : Disk} {path : List ℕ} {place : Option (List ℕ)}
    {v v' : V} {de : Memory} (R : Restores C d path place v v' de) where
  find_and_restore-forget :
      find_and_restore C path place v d ≡ ((forget C de d).0, v', (forget C de d).1)
  unfolding find_and_restore restore_entry restore_at
  find_and_restore-forget =
      rw
        (R.found, R.split, R.chosen, R.allowed, R.made, find_and_restore, restore_entry, restore_at)
        (ap (λ w. ((forget C de d).0, w.1, (forget C de d).1)) R.made)

  urm-forget : urm C path place v d ≡ ((forget C de d).0, v', (forget C de d).1)
  unfolding urm
  urm-forget = simp (R.undel_dir, R.journal) find_and_restore-forget

forget-ok :
    {V : Type 0} (C : Setting V) (d : Disk) (de : Memory) (usb : SuperBlock)
    → C.super_again ≡ true
    → (delete_entry C.env de d).1.usb ≡ d.usb
    → update_superblock C.layout d.usb de update_delete ≡ ok usb
    → forget C de d ≡ (ok tt, record ((delete_entry C.env de d).1) { usb = usb })
unfolding forget
forget-ok C d de usb r same updated =
    simp (r, ap (λ u. update_superblock C.layout u de update_delete) same, updated) refl

-- A call of `ext3u_urm` comes to an entry of the stored list, at `x`, and makes its file, the superblock can be
-- read again, and its update ends. Then the call succeeds, the list has the other entries and no longer this one, linked in both
-- directions, the superblock is the updated one, and the directories are those that making the file left. The
-- entry as it was read has the two records that stand on its block; the headers of the list are in blocks
-- that can be read, behind the blocks' own headers, and do not overlap, and no entry stands twice in the list.
pub urm-Linked :
    {V : Type 0} (C : Setting V) (d : Disk) (path : List ℕ) (place : Option (List ℕ)) (v v' : V)
    (de : Memory) (usb : SuperBlock) (xs : List Place) (x : Place) (ys : List Place)
    → Restores C d path place v v' de
    → C.super_again ≡ true
    → update_superblock C.layout d.usb de update_delete ≡ ok usb
    → ((i : ℕ) → de i < 256)
    → Headers C.env (xs ++ (x ∷ ys))
    → Distinct (xs ++ (x ∷ ys))
    → get_record (x.offset + d_next_at) (d.b_data x.block) ≡ d_next de
    → get_record (x.offset + d_previous_at) (d.b_data x.block) ≡ d_previous de
    → Linked (next_of d) (prev_of d) null_place (xs ++ (x ∷ ys)) null_place
    → let (r, v₁, d') = urm C path place v d in
      (r ≡ ok tt)
      × (v₁ ≡ v')
      × (d'.usb ≡ usb)
      × Linked (next_of d') (prev_of d') null_place (xs ++ ys) null_place
urm-Linked C d path place v v' de usb xs x ys R again updated bytes headers distinct tells_next
      tells_prev linked =
    let (done, list, same) =
      delete_entry-Linked C.env d de xs x ys R.journal bytes headers distinct tells_next tells_prev
        linked in
    rw (urm-forget R, forget-ok C d de usb again same updated) (refl, refl, refl, list)

-- ===== src/Ext3/Directory/Removed.antt =====
-- A name taken out of a block of a directory.
use mathlib.Core.Path.{subst}
use ext3u.Common.{ℕ, ◌+◌, ◌≡◌, refl, ap, ◌∙◌, eq→==, ne→==, List, [], ◌∷◌, ◌++◌, ok, arith}
use ext3u.Ext3.Directory.{DirEntry, DirFormat, search_dirblock, delete_loop, ext3_delete_entry}
use ext3u.Ext3.Directory.Tiled.{
  IsFormat, Checked-check, Tiled, find, inode_of, search_dirblock-find, lookup_name,
  lookup_name-pass, lookup_name-cong, match-unused,
}

-- The bytes of some entries.
abbrev pub total : List DirEntry → ℕ
total [] = 0
total (de ∷ entries) = de.rec_len + total entries

-- The block is filled as before, and every name leads to where it leads without the entry, from an offset
-- on.
record Removed (F : DirFormat) (offset : ℕ) (xs ys more : List DirEntry) : Type 0 where
  tiled : Tiled F offset more
  same : (n : List ℕ) → lookup_name n more ≡ lookup_name n (xs ++ ys)

module _ (F : DirFormat) (format : IsFormat F) where
  -- The entry behind the first of some entries is given to the one before it.
  delete_loop-Removed :
      (at offset : ℕ) (pde : DirEntry) (xs : List DirEntry) (de : DirEntry) (ys : List DirEntry)
      → at ≡ offset + pde.rec_len + total xs
      → Tiled F offset (pde ∷ (xs ++ (de ∷ ys)))
      → (more : List DirEntry) × (delete_loop F at pde (offset + pde.rec_len) (xs ++ (de ∷ ys))
          ≡ ok more)
        × Removed F offset (pde ∷ xs) ys more
  unfolding delete_loop
  delete_loop-Removed at offset pde [] de ys here t = (
    record pde { rec_len = pde.rec_len + de.rec_len } ∷ ys,
    rw (Checked-check t.2.0, eq→== (offset + pde.rec_len) at (omega (arith, here)), delete_loop)
        refl,
    record {
      tiled = (
        record {
          least = omega (arith, t.0.least);
          fourth = omega (arith, t.0.fourth, t.2.0.fourth);
          holds_name = omega (arith, t.0.holds_name);
          in_block = omega (arith, t.2.0.in_block);
          inode_low = t.0.inode_low;
        },
        t.1,
        subst (λ o. Tiled F o ys) (omega arith) t.2.2,
      );
      same = λ n. lookup_name-cong n pde (pde.rec_len + de.rec_len) ys ys refl;
    },
  )
  delete_loop-Removed at offset pde (x ∷ xs) de ys here t =
      let (more, done, R) =
        delete_loop-Removed at (offset + pde.rec_len) x xs de ys (omega (arith, here)) t.2 in
      (
        pde ∷ more,
        rw
            (
              Checked-check t.2.0,
              ne→== (offset + pde.rec_len) at
                  (λ e. omega (arith, here, e, t.2.0.least, format.room 1)),
              done,
              delete_loop,
            )
            refl,
        record {
          tiled = (t.0, t.1, R.tiled);
          same = λ n. lookup_name-cong n pde pde.rec_len more (x ∷ (xs ++ ys)) (R.same n);
        },
      )

  -- The same from the start of the block.
  ext3_delete_entry-Removed :
      (xs : List DirEntry) (de : DirEntry) (ys : List DirEntry)
      → Tiled F 0 (xs ++ (de ∷ ys))
      → (more : List DirEntry) × (ext3_delete_entry F (total xs) (xs ++ (de ∷ ys)) ≡ ok more)
        × Removed F 0 xs ys more
  unfolding ext3_delete_entry
  ext3_delete_entry-Removed [] de ys t = (
    record de { inode = 0 } ∷ ys,
    rw (Checked-check t.0, ext3_delete_entry) refl,
    record {
      tiled = (
        record {
          least = t.0.least;
          fourth = t.0.fourth;
          holds_name = t.0.holds_name;
          in_block = t.0.in_block;
          inode_low = omega arith;
        },
        λ ne. absurd (ne refl),
        t.2,
      );
      same = λ n.
          lookup_name-pass n (record de { inode = 0 }) ys
            (match-unused n (record de { inode = 0 }) refl);
    },
  )
  ext3_delete_entry-Removed (x ∷ xs) de ys t =
      let (more, done, R) =
        delete_loop-Removed (x.rec_len + total xs) 0 x xs de ys (omega arith) t in
      (
        more,
        rw
            (
              Checked-check t.0,
              ne→== (x.rec_len + total xs) 0 (λ e. omega (arith, e, t.0.least, format.room 1)),
              ext3_delete_entry,
            )
            (ap (λ o. delete_loop F (x.rec_len + total xs) x o (xs ++ (de ∷ ys))) (omega arith)
              ∙ done),
        R,
      )

  -- An entry of a filled block of a directory is deleted, given by its offset: the call succeeds, the block is
  -- filled again, and for every name `search_dirblock` finds the inode of the first of the other entries that
  -- are in use and have the name. `EXT3_DIR_REC_LEN` has room for a name, is aligned and grows.
  pub ext3_delete_entry-search :
      (xs : List DirEntry) (de : DirEntry) (ys : List DirEntry)
      → Tiled F 0 (xs ++ (de ∷ ys))
      → (more : List DirEntry) × (ext3_delete_entry F (total xs) (xs ++ (de ∷ ys)) ≡ ok more)
        × Tiled F 0 more
        × ((n : List ℕ) → inode_of (search_dirblock F n 0 more) ≡ inode_of (find n (xs ++ ys)))
  ext3_delete_entry-search xs de ys t =
      let (more, done, R) = ext3_delete_entry-Removed xs de ys t in
      (
        more,
        done,
        R.tiled,
        λ n. ap inode_of (search_dirblock-find F n 0 more format R.tiled) ∙ R.same n,
      )

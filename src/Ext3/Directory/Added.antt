-- ===== src/Ext3/Directory/Added.antt =====
-- A name added to a block of a directory.
use mathlib.Core.Path.{subst}
use ext3u.Common.{
  ℕ, ◌+◌, ◌-◌, ◌≤◌, ◌<◌, ◌≡◌, sym, ap, ◌∙◌, ◌≢◌, inl, inr, false, Bool-cases, ◌==◌, ==→eq, ==→ne,
  leb, leb→le, ltb, ltb→lt, if◌then◌else◌, List, [], ◌∷◌, length, Result, ok, err, hangs, eexist,
  Result-cases, arith,
}
use ext3u.Ext3.Directory.{
  DirEntry, DirFormat, ext3_match, search_dirblock, put_dirent, add_dirent_to_buf, enospc,
}
use ext3u.Ext3.Directory.Tiled.{
  IsFormat, Checked, Checked-check, Tiled, Inode, names, nothing, inode_of, search_dirblock-find,
  lookup_name, lookup_name-pass, lookup_name-hit, lookup_name-cong, match-unused, match-other,
  match-own,
}

-- The block is filled as before, the name leads to the inode, and every other name to where it led.
pub record Added (F : DirFormat) (name : List ℕ) (ino offset : ℕ) (entries more : List DirEntry)
    : Type 0 where
  pub tiled : Tiled F offset more
  pub leads : lookup_name name more ≡ names ino
  pub others : (n : List ℕ) → n ≢ name → lookup_name n more ≡ lookup_name n entries

-- No entry has the room of the new name: one out of use is shorter, and one in use leaves less behind its name.
abbrev pub NoRoom : DirFormat → (name : List ℕ) → List DirEntry → Type 0
NoRoom F name [] = Unit
NoRoom F name (de ∷ entries) =
    (de.inode ≡ 0 → de.rec_len < F.dir_rec_len (length name))
    × (de.inode ≢ 0 → de.rec_len < F.dir_rec_len (length de.name) + F.dir_rec_len (length name))
    × NoRoom F name entries

-- How the loop ends, from an offset on: with the name in the block, or with no room, or with the name there
-- already, or with what the journal returns.
data Placed (F : DirFormat) (access : Result (Unit {0})) (name : List ℕ) (ino offset : ℕ)
    (entries : List DirEntry) : Result (List DirEntry) → Type 0 where
  placed :
      (more : List DirEntry)
      → Added F name ino offset entries more
      → Placed F access name ino offset entries (ok more)
  full : NoRoom F name entries → Placed F access name ino offset entries (err enospc)
  taken : lookup_name name entries ≢ nothing → Placed F access name ino offset entries (err eexist)
  refused : (e : ℕ) → access ≡ err e → Placed F access name ino offset entries (err e)
  endless : access ≡ hangs → Placed F access name ino offset entries hangs

-- The inode that `search_dirblock` finds for a name in a block.
abbrev pub searched : DirFormat → (name : List ℕ) → List DirEntry → Inode
searched F name entries = inode_of (search_dirblock F name 0 entries)

-- How adding a name to a block ends, in the words of `search_dirblock`.
pub data Ended (F : DirFormat) (access : Result (Unit {0})) (name : List ℕ) (ino : ℕ)
    (entries : List DirEntry) : Result (List DirEntry) → Type 0 where
  added :
      (more : List DirEntry)
      → Tiled F 0 more
      → searched F name more ≡ names ino
      → ((n : List ℕ) → n ≢ name → searched F n more ≡ searched F n entries)
      → Ended F access name ino entries (ok more)
  no_room : NoRoom F name entries → Ended F access name ino entries (err enospc)
  there_already : searched F name entries ≢ nothing → Ended F access name ino entries (err eexist)
  no_access : (e : ℕ) → access ≡ err e → Ended F access name ino entries (err e)
  no_answer : access ≡ hangs → Ended F access name ino entries hangs

module _ (F : DirFormat) (access : Result (Unit {0})) (name : List ℕ) (ino : ℕ)
    (format : IsFormat F) (used : ino ≢ 0) (low : ino ≤ F.s_inodes_count)
    (named : 1 ≤ length name) where
  -- The new entry with a length.
  abbrev new : (rec_len : ℕ) → DirEntry
  new rec_len = record { inode = ino; rec_len = rec_len; name = name }

  -- An entry out of use is taken over.
  reuse-Added :
      (offset : ℕ) (de : DirEntry) (entries : List DirEntry)
      → Tiled F offset (de ∷ entries)
      → de.inode ≡ 0
      → F.dir_rec_len (length name) ≤ de.rec_len
      → Added F name ino offset (de ∷ entries) (new de.rec_len ∷ entries)
  reuse-Added offset de entries t unused room = record {
    tiled = (
      record {
        least = t.0.least;
        fourth = t.0.fourth;
        holds_name = room;
        in_block = t.0.in_block;
        inode_low = low;
      },
      λ ne. named,
      t.2,
    );
    leads = lookup_name-hit name (new de.rec_len) entries (match-own (new de.rec_len) used);
    others = λ n ne.
        lookup_name-pass n (new de.rec_len) entries (match-other n (new de.rec_len) ne)
        ∙ sym (lookup_name-pass n de entries (match-unused n de unused));
  }

  -- The room behind an entry in use is given to the new one.
  split-Added :
      (offset : ℕ) (de : DirEntry) (entries : List DirEntry)
      → Tiled F offset (de ∷ entries)
      → ext3_match name de ≡ false
      → de.inode ≢ 0
      → F.dir_rec_len (length name) ≤ de.rec_len - F.dir_rec_len (length de.name)
      → Added F name ino offset (de ∷ entries) (
          record de { rec_len = F.dir_rec_len (length de.name) }
          ∷ new (de.rec_len - F.dir_rec_len (length de.name))
          ∷ entries)
  unfolding ext3_match
  split-Added offset de entries t other in_use room =
      let nlen = F.dir_rec_len (length de.name) in
      let behind = new (de.rec_len - nlen) in
      let holds = t.0.holds_name in
      let block = t.0.in_block in
      record {
        tiled = (
          record {
            least = format.grows 1 (length de.name) (t.1 in_use);
            fourth = format.aligned (length de.name);
            holds_name = omega arith;
            in_block = omega (arith, holds, block);
            inode_low = t.0.inode_low;
          },
          t.1,
          (
            record {
              least = omega (arith, format.grows 1 (length name) named, room);
              fourth = omega (arith, t.0.fourth, format.aligned (length de.name), holds);
              holds_name = room;
              in_block = omega (arith, holds, block);
              inode_low = low;
            },
            λ ne. named,
            subst (λ o. Tiled F o entries) (omega (arith, holds)) t.2,
          ),
        );
        leads =
            lookup_name-pass name (record de { rec_len = nlen }) (behind ∷ entries) other
            ∙ lookup_name-hit name behind entries (match-own behind used);
        others = λ n ne.
            lookup_name-cong n de nlen (behind ∷ entries) entries
              (lookup_name-pass n behind entries (match-other n behind ne));
      }

  put_dirent-Added :
      (offset : ℕ) (de : DirEntry) (entries : List DirEntry)
      → Tiled F offset (de ∷ entries)
      → ext3_match name de ≡ false
      → F.dir_rec_len (length name)
        ≤ (if de.inode == 0 then de.rec_len else de.rec_len - F.dir_rec_len (length de.name))
      → Added F name ino offset (de ∷ entries) (put_dirent F name ino de entries)
  unfolding put_dirent
  put_dirent-Added offset de entries t other room = elim (Bool-cases (de.inode == 0)) [
    | inl e ↦
        rw (e, put_dirent) (reuse-Added offset de entries t (==→eq de.inode 0 e) (rw e at room))
    | inr e ↦
        rw (e, put_dirent)
          (split-Added offset de entries t other (==→ne de.inode 0 e) (rw e at room))
  ]

  -- Past the place where the new entry could begin no entry has its room, since they end in the block.
  NoRoom-end :
      (offset : ℕ) (entries : List DirEntry)
      → Tiled F offset entries
      → F.s_blocksize < offset + F.dir_rec_len (length name)
      → NoRoom F name entries
  NoRoom-end offset [] t past = tt
  NoRoom-end offset (de ∷ entries) t past = (
    λ e. omega (arith, t.0.in_block, past),
    λ ne. omega (arith, t.0.in_block, past),
    NoRoom-end (offset + de.rec_len) entries t.2 (omega (arith, past)),
  )

  NoRoom-entry :
      (de : DirEntry) (entries : List DirEntry)
      → leb
          (F.dir_rec_len (length name))
          (if de.inode == 0 then de.rec_len else de.rec_len - F.dir_rec_len (length de.name))
        ≡ false
      → NoRoom F name entries
      → F.dir_rec_len 1 ≤ F.dir_rec_len (length name)
      → 1 ≤ F.dir_rec_len 1
      → NoRoom F name (de ∷ entries)
  NoRoom-entry de entries small rest grows some =
      (λ e. ground (arith, small, e), λ ne. ground (arith, small, ne, grows, some), rest)

  -- An entry before the place does not have the name, and too little room.
  Placed-behind :
      (offset : ℕ) (de : DirEntry) (entries : List DirEntry) (out : Result (List DirEntry))
      → Checked F offset de
      → (de.inode ≢ 0 → 1 ≤ length de.name)
      → ext3_match name de ≡ false
      → leb
          (F.dir_rec_len (length name))
          (if de.inode == 0 then de.rec_len else de.rec_len - F.dir_rec_len (length de.name))
        ≡ false
      → Placed F access name ino (offset + de.rec_len) entries out
      → Placed F access name ino offset
          (de ∷ entries)
          (elim out [ ok more ↦ ok (de ∷ more) | err e ↦ err e | hangs ↦ hangs ])
  Placed-behind offset de entries _ c n other small (placed more A) = placed (de ∷ more) (record {
    tiled = (c, n, A.tiled);
    leads = lookup_name-pass name de more other ∙ A.leads;
    others = λ m ne. lookup_name-cong m de de.rec_len more entries (A.others m ne);
  })
  Placed-behind offset de entries _ c n other small (full none) =
      full (NoRoom-entry de entries small none (format.grows 1 (length name) named) some_room)
    where
      some_room : 1 ≤ F.dir_rec_len 1
      some_room = omega (arith, format.room 1)
  Placed-behind offset de entries _ c n other small (taken h) =
      taken (λ e. h (sym (lookup_name-pass name de entries other) ∙ e))
  Placed-behind offset de entries _ c n other small (refused e h) = refused e h
  Placed-behind offset de entries _ c n other small (endless h) = endless h

  -- The journal is asked before the block is changed.
  abbrev Asked : (offset : ℕ) (entries more : List DirEntry) → Result (Unit {0}) → Type 0
  Asked offset entries more answer =
      Placed F access name ino offset entries
        (elim answer [ ok x ↦ ok more | err e ↦ err e | hangs ↦ hangs ])

  Placed-access :
      (offset : ℕ) (entries more : List DirEntry)
      → Added F name ino offset entries more
      → Asked offset entries more access
  Placed-access offset entries more A = elim (Result-cases access) [
    | inl (x, e) ↦ subst (Asked offset entries more) (sym e) (placed more A)
    | inr (inl (k, e)) ↦ subst (Asked offset entries more) (sym e) (refused k e)
    | inr (inr e) ↦ subst (Asked offset entries more) (sym e) (endless e)
  ]

  -- The loop from an offset on.
  add_dirent_to_buf-Placed :
      (offset : ℕ) (entries : List DirEntry)
      → Tiled F offset entries
      → Placed F access name ino offset entries (add_dirent_to_buf F access name ino offset entries)
  unfolding add_dirent_to_buf
  add_dirent_to_buf-Placed offset [] t = full tt
  add_dirent_to_buf-Placed offset (de ∷ entries) t =
      elim (Bool-cases (ltb F.s_blocksize (offset + F.dir_rec_len (length name)))) [
        | inl e ↦
            rw (e, add_dirent_to_buf) (full (NoRoom-end offset (de ∷ entries) t (ltb→lt _ _ e)))
        | inr e ↦ elim (Bool-cases (ext3_match name de)) [
          | inl m ↦
              rw (e, Checked-check t.0, m, add_dirent_to_buf)
                (taken (λ h. cc (sym (lookup_name-hit name de entries m) ∙ h)))
          | inr m ↦
              elim (Bool-cases (
                leb (F.dir_rec_len (length name)) (
                  if de.inode == 0
                  then de.rec_len
                  else de.rec_len - F.dir_rec_len (length de.name)))) [
                    | inl r ↦
                        rw (e, Checked-check t.0, m, r, add_dirent_to_buf)
                          (Placed-access offset (de ∷ entries) (put_dirent F name ino de entries)
                            (put_dirent-Added offset de entries t m (leb→le _ _ r)))
                    | inr r ↦
                        rw (e, Checked-check t.0, m, r, add_dirent_to_buf)
                          (Placed-behind offset de entries _ t.0 t.1 m r
                            (add_dirent_to_buf-Placed (offset + de.rec_len) entries t.2))
                  ]
        ]
      ]

  searched-lookup_name :
      (n : List ℕ) (entries : List DirEntry)
      → Tiled F 0 entries
      → searched F n entries ≡ lookup_name n entries
  searched-lookup_name n entries t = ap inode_of (search_dirblock-find F n 0 entries format t)

  Placed-Ended :
      (entries : List DirEntry) (out : Result (List DirEntry))
      → Tiled F 0 entries
      → Placed F access name ino 0 entries out
      → Ended F access name ino entries out
  Placed-Ended entries _ t (placed more A) =
      added more A.tiled (searched-lookup_name name more A.tiled ∙ A.leads) (λ n ne.
        searched-lookup_name n more A.tiled
        ∙ A.others n ne
        ∙ sym (searched-lookup_name n entries t))
  Placed-Ended entries _ t (full none) = no_room none
  Placed-Ended entries _ t (taken h) =
      there_already (λ e. h (sym (searched-lookup_name name entries t) ∙ e))
  Placed-Ended entries _ t (refused e h) = no_access e h
  Placed-Ended entries _ t (endless h) = no_answer h

  -- A name is added to a filled block of a directory: the block is filled again, `search_dirblock` finds the
  -- inode for the name, and for every other name what it found before; or
  -- there is no room, that is each entry out of use is shorter than the new one and each one in use leaves less
  -- behind its name; or the name is
  -- there already, or the journal refuses; a bad entry is never met. `EXT3_DIR_REC_LEN` has room for a name, is
  -- aligned and grows, the inode is one of the file system's and the name is not empty.
  pub add_dirent_to_buf-Ended :
      (entries : List DirEntry)
      → Tiled F 0 entries
      → Ended F access name ino entries (add_dirent_to_buf F access name ino 0 entries)
  add_dirent_to_buf-Ended entries t =
      Placed-Ended entries _ t (add_dirent_to_buf-Placed 0 entries t)

-- ===== src/Ext3/Directory/Tiled.antt =====
-- Blocks of a directory whose entries fill them, and what is found in them.
use ext3u.Common.{
  ℕ, ◌+◌, ◌%◌, ◌≤◌, ◌≡◌, refl, sym, ap, ◌∙◌, ◌≢◌, Bool, true, false, ◌&&◌, not, ◌==◌, leb, le→leb,
  and_false, ==→eq, eq→==, ne→==, Bool-cases, inl, inr, if◌then◌else◌, List, [], ◌∷◌, length, arith,
}
use ext3u.Ext3.Directory.{
  DirEntry, DirFormat, check_dir_entry, same_name, ext3_match, Search, found, missing, bad,
  search_dirblock,
}

-- What `EXT3_DIR_REC_LEN` does: a length has room for the 8 bytes in front of the name, is a multiple of 4,
-- and grows with the name.
pub record IsFormat (F : DirFormat) : Type 0 where
  pub room : (n : ℕ) → n + 8 ≤ F.dir_rec_len n
  pub aligned : (n : ℕ) → F.dir_rec_len n % 4 ≡ 0
  pub grows : (m n : ℕ) → m ≤ n → F.dir_rec_len m ≤ F.dir_rec_len n

pub and_left : (a b : Bool) → (a && b) ≡ true → a ≡ true
and_left true b e = refl
and_left false b e = e

pub and_right : (a b : Bool) → (a && b) ≡ true → b ≡ true
and_right true b e = e
and_right false b e = absurd (cc e)

-- The conditions of the check.
pub record Checked (F : DirFormat) (offset : ℕ) (de : DirEntry) : Type 0 where
  pub least : F.dir_rec_len 1 ≤ de.rec_len
  pub fourth : de.rec_len % 4 ≡ 0
  pub holds_name : F.dir_rec_len (length de.name) ≤ de.rec_len
  pub in_block : offset + de.rec_len ≤ F.s_blocksize
  pub inode_low : de.inode ≤ F.s_inodes_count

pub Checked-check :
    {F : DirFormat} {offset : ℕ} {de : DirEntry}
    → Checked F offset de
    → check_dir_entry F offset de ≡ true
unfolding check_dir_entry
Checked-check {F} {offset} {de} C =
    rw
      (
        le→leb (F.dir_rec_len 1) de.rec_len C.least,
        eq→== (de.rec_len % 4) 0 C.fourth,
        le→leb (F.dir_rec_len (length de.name)) de.rec_len C.holds_name,
        le→leb (offset + de.rec_len) F.s_blocksize C.in_block,
        le→leb de.inode F.s_inodes_count C.inode_low,
      )
      refl

-- The entries from an offset on fill the block to its end, each passes the check, and those in use have a
-- name.
abbrev pub Tiled : DirFormat → ℕ → List DirEntry → Type 0
Tiled F offset [] = offset ≡ F.s_blocksize
Tiled F offset (de ∷ entries) =
    Checked F offset de
    × (de.inode ≢ 0 → 1 ≤ length de.name)
    × Tiled F (offset + de.rec_len) entries

-- The first entry in use with the name, by the names alone.
unfoldable pub find : (name : List ℕ) → List DirEntry → Search
find name [] = missing
find name (de ∷ entries) =
    let rest = find name entries in if ext3_match name de then found de else rest

-- The number of its inode.
pub data Inode : Type 0 where
  names : ℕ → Inode
  nothing : Inode

abbrev pub inode_of : Search → Inode
inode_of (found de) = names de.inode
inode_of missing = nothing
inode_of bad = nothing

abbrev pub lookup_name : (name : List ℕ) → List DirEntry → Inode
lookup_name name entries = inode_of (find name entries)

pub same_name-eq : (s t : List ℕ) → same_name s t ≡ true → s ≡ t
unfolding same_name
same_name-eq [] [] e = refl
same_name-eq [] (d ∷ t) e = absurd (cc e)
same_name-eq (c ∷ s) [] e = absurd (cc e)
same_name-eq (c ∷ s) (d ∷ t) e = λ i.
    ==→eq c d (and_left (c == d) (same_name s t) e) i
    ∷ same_name-eq s t (and_right (c == d) (same_name s t) e) i

-- A matching entry has the name.
pub match-name : (name : List ℕ) (de : DirEntry) → ext3_match name de ≡ true → name ≡ de.name
unfolding ext3_match
match-name name de e =
    same_name-eq name de.name (and_right (not (de.inode == 0)) (same_name name de.name) e)

-- In a filled block `search_dirblock` finds the first entry in use that has the name, or says that there is
-- none; it never stops at a bad entry.
pub search_dirblock-find :
    (F : DirFormat) (name : List ℕ) (offset : ℕ) (entries : List DirEntry)
    → IsFormat F
    → Tiled F offset entries
    → search_dirblock F name offset entries ≡ find name entries
unfolding search_dirblock find
search_dirblock-find F name offset [] format t = refl
search_dirblock-find F name offset (de ∷ entries) format t =
    elim (Bool-cases (ext3_match name de)) [
      | inl e ↦ rw (e, le→leb (offset + length name) F.s_blocksize (fits e), Checked-check t.0) refl
      | inr e ↦
          rw (e, and_false (leb (offset + length name) F.s_blocksize), ne→== de.rec_len 0 some_len)
            (search_dirblock-find F name (offset + de.rec_len) entries format t.2)
    ]
  where
    some_len : de.rec_len ≢ 0
    some_len z = omega (arith, format.room 1, t.0.least, z)

    fits : ext3_match name de ≡ true → offset + length name ≤ F.s_blocksize
    fits e = omega (
      arith,
      format.room (length de.name),
      t.0.holds_name,
      t.0.in_block,
      ap (λ n. length n) (match-name name de e),
    )

pub same_name_self : (s : List ℕ) → same_name s s ≡ true
unfolding same_name
same_name_self [] = refl
same_name_self (c ∷ s) = rw (eq→== c c refl) (same_name_self s)

pub same_name-ne : (s t : List ℕ) → s ≢ t → same_name s t ≡ false
same_name-ne s t ne = elim (Bool-cases (same_name s t)) [
  | inl e ↦ absurd (ne (same_name-eq s t e))
  | inr e ↦ e
]

-- An entry that does not match, or is not in use, is passed over.
pub lookup_name-pass :
    (name : List ℕ) (de : DirEntry) (entries : List DirEntry)
    → ext3_match name de ≡ false
    → lookup_name name (de ∷ entries) ≡ lookup_name name entries
unfolding find
lookup_name-pass name de entries e = rw (e, find) refl

pub lookup_name-hit :
    (name : List ℕ) (de : DirEntry) (entries : List DirEntry)
    → ext3_match name de ≡ true
    → lookup_name name (de ∷ entries) ≡ names de.inode
unfolding find
lookup_name-hit name de entries e = rw (e, find) refl

-- The length of an entry does not matter, and the rest counts by what is found in it.
pub lookup_name-cong :
    (name : List ℕ) (de : DirEntry) (r : ℕ) (xs ys : List DirEntry)
    → lookup_name name xs ≡ lookup_name name ys
    → lookup_name name (record de { rec_len = r } ∷ xs) ≡ lookup_name name (de ∷ ys)
unfolding find ext3_match
lookup_name-cong name de r xs ys same = elim (Bool-cases (ext3_match name de)) [
  | inl e ↦
      lookup_name-hit name (record de { rec_len = r }) xs e ∙ sym (lookup_name-hit name de ys e)
  | inr e ↦
      lookup_name-pass name (record de { rec_len = r }) xs e
      ∙ same
      ∙ sym (lookup_name-pass name de ys e)
]

pub match-unused : (name : List ℕ) (de : DirEntry) → de.inode ≡ 0 → ext3_match name de ≡ false
unfolding ext3_match
match-unused name de e = rw (eq→== de.inode 0 e) refl

pub match-other : (name : List ℕ) (de : DirEntry) → name ≢ de.name → ext3_match name de ≡ false
unfolding ext3_match
match-other name de ne = rw (same_name-ne name de.name ne) (and_false (not (de.inode == 0)))

pub match-own : (de : DirEntry) → de.inode ≢ 0 → ext3_match de.name de ≡ true
unfolding ext3_match
match-own de used = rw (ne→== de.inode 0 used) (same_name_self de.name)

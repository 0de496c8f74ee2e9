-- ===== src/Undel/Save/Entry.antt =====
-- The fields of the entry that `ext3u_save` fills.
use ext3u.Common.{
  ℕ, zero, suc, ◌+◌, ◌^◌, ◌<◌, ◌≤◌, ◌==◌, ◌&&◌, ◌≡◌, refl, ap, ◌∙◌, inl, inr, true, eq→==, List, [],
  ◌∷◌, length, Memory, get-put, get-put_disjoint, put_outside, memcpy_inside, memcpy_outside,
  get_cong, arith,
}
use ext3u.Undel.Layout.{InodeLayout, entry_size, d_size, d_hash, d_path_length, d_uid}
use ext3u.Undel.Path.{path_max}
use ext3u.Undel.Search.{strncmp_equal}
use ext3u.Undel.Save.{File, chars, fill_entry}

-- `strncmp` finds a string equal to its own bytes.
strncmp_equal-chars :
    (s : List ℕ) (m : Memory) (at n : ℕ)
    → ((i : ℕ) → i < n → m (at + i) ≡ chars s i)
    → strncmp_equal s m at n ≡ true
unfolding strncmp_equal
strncmp_equal-chars s m at zero same = refl
strncmp_equal-chars [] m at (suc n) same =
    eq→== (m at) 0 (ap m (omega arith) ∙ same 0 (omega arith))
strncmp_equal-chars (c ∷ s) m at (suc n) same =
    rw (eq→== (m at) c (ap m (omega arith) ∙ same 0 (omega arith)))
      (strncmp_equal-chars s m (at + 1) n (λ i h. ap m (omega arith) ∙ same (suc i) (omega arith)))

-- The entry that `ext3u_save` fills has the path's hash and the path's length, `strncmp` finds
-- the path in it, and it has the owner and its own size, if the hash fits 32 bits and the owner
-- and the size 16.
pub fill_entry-fields :
    (L : InodeLayout) (hash : List ℕ → ℕ) (raw : Memory) (buf : List ℕ) (file : File) (type : ℕ)
    → hash buf < 2 ^ 32
    → file.i_uid < 2 ^ 16
    → entry_size L + length buf + 1 < 2 ^ 16
    → let de = fill_entry L hash raw buf file type in
      (d_hash de ≡ hash buf)
      × (strncmp_equal buf de (entry_size L) path_max ≡ true)
      × (d_uid de ≡ file.i_uid)
      × (d_size de ≡ entry_size L + length buf + 1)
      × (d_path_length de ≡ length buf)
unfolding fill_entry
fill_entry-fields L hash raw buf file type hashed owned sized = (
  get-put_disjoint 4 60 2 0 _ _ (inr (omega arith))
      ∙ get-put_disjoint 4 60 2 56 _ _ (inr (omega arith))
      ∙ get-put_disjoint 4 60 2 66 _ _ (inl (omega arith))
      ∙ get-put_disjoint 4 60 2 68 _ _ (inl (omega arith))
      ∙ get-put 4 60 (hash buf) _ hashed,
  strncmp_equal-chars buf _ (entry_size L) path_max (λ i h.
      put_outside 2 0 _ _ (entry_size L + i) (inr (omega arith))
      ∙ put_outside 2 56 _ _ (entry_size L + i) (inr (omega arith))
      ∙ put_outside 2 66 _ _ (entry_size L + i) (inr (omega arith))
      ∙ put_outside 2 68 _ _ (entry_size L + i) (inr (omega arith))
      ∙ put_outside 4 60 _ _ (entry_size L + i) (inr (omega arith))
      ∙ memcpy_inside _ (entry_size L) (chars buf) 0 path_max (entry_size L + i) (omega arith)
          (omega arith)
      ∙ ap (chars buf) (omega arith)),
  get-put_disjoint 2 68 2 0 _ _ (inr (omega arith))
      ∙ get-put_disjoint 2 68 2 56 _ _ (inr (omega arith))
      ∙ get-put_disjoint 2 68 2 66 _ _ (inr (omega arith))
      ∙ get-put 2 68 file.i_uid _ owned,
  get-put 2 0 _ _ sized,
  get-put_disjoint 2 64 2 0 _ _ (inr (omega arith))
      ∙ get-put_disjoint 2 64 2 56 _ _ (inr (omega arith))
      ∙ get-put_disjoint 2 64 2 66 _ _ (inl (omega arith))
      ∙ get-put_disjoint 2 64 2 68 _ _ (inl (omega arith))
      ∙ get-put_disjoint 2 64 4 60 _ _ (inr (omega arith))
      ∙ get_cong 2 64 _ _
          (λ i p q. memcpy_outside _ (entry_size L) (chars buf) 0 path_max i (inl (omega arith)))
      ∙ get-put 2 64 (length buf) _ (omega arith),
)

-- `strncmp` stops at the end of the string, and so reads no byte behind it.
pub strncmp_equal-cong :
    (path : List ℕ) (m m' : Memory) (at n : ℕ)
    → ((i : ℕ) → i ≤ length path → m (at + i) ≡ m' (at + i))
    → strncmp_equal path m at n ≡ strncmp_equal path m' at n
unfolding strncmp_equal
strncmp_equal-cong path m m' at zero same = refl
strncmp_equal-cong [] m m' at (suc n) same =
    ap (λ c. c == 0) (ap m (omega arith) ∙ same 0 (omega arith) ∙ ap m' (omega arith))
strncmp_equal-cong (c ∷ path) m m' at (suc n) same =
    ap (λ b. (b == c) && strncmp_equal path m (at + 1) n)
      (ap m (omega arith) ∙ same 0 (omega arith) ∙ ap m' (omega arith))
    ∙ ap (λ b. (m' at == c) && b)
        (strncmp_equal-cong path m m' (at + 1) n
          (λ i h. ap m (omega arith) ∙ same (suc i) (omega arith) ∙ ap m' (omega arith)))

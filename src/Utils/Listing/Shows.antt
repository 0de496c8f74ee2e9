-- ===== src/Utils/Listing/Shows.antt =====
-- The command shows the paths of the entries that the kernel has put into the buffer.
use ext3u.Common.{
  ℕ, zero, suc, ◌+◌, ◌^◌, ◌≤◌, ◌<◌, ◌≡◌, refl, ap, ◌∙◌, ◌≢◌, ne→==, eq→==, List, [], ◌∷◌, map,
  length, get_or, Memory, get, get_cong, arith,
}
use ext3u.Undel.Layout.{InodeLayout, entry_size, d_path_length}
use ext3u.Undel.Ioctl.{InodeFields, info_size, put_listing}
use ext3u.Undel.Ioctl.Bytes.{put_all, put_listing-before, put_listing-path, put_listing-length}
use ext3u.Utils.Listing.{c_string, uls_info_dispatcher}

-- A string without NUL.
abbrev pub NoNul : List ℕ → Type 0
NoNul [] = Unit
NoNul (c ∷ s) = (c ≢ 0) × NoNul s

-- The entry has the path, shorter than the limit.
pub record Named (L : InodeLayout) (limit : ℕ) (de : Memory) (p : List ℕ) : Type 0 where
  pub length_field : d_path_length de ≡ length p
  pub chars : (k : ℕ) → k ≤ length p → de (entry_size L + k) ≡ get_or p k 0
  pub no_nul : NoNul p
  pub short : length p < limit
  pub fits : length p < 2 ^ 16

-- The entries have the paths, one by one.
abbrev pub AllNamed : InodeLayout → (limit : ℕ) → List Memory → List (List ℕ) → Type 0
AllNamed L limit [] [] = Unit
AllNamed L limit [] (p ∷ ps) = ⊥
AllNamed L limit (de ∷ des) [] = ⊥
AllNamed L limit (de ∷ des) (p ∷ ps) = Named L limit de p × AllNamed L limit des ps

c_string-chars :
    (limit : ℕ) (m : Memory) (at : ℕ) (p : List ℕ)
    → ((k : ℕ) → k ≤ length p → m (at + k) ≡ get_or p k 0)
    → NoNul p
    → length p < limit
    → c_string limit m at ≡ p
unfolding c_string
c_string-chars zero m at p same n h = absurd (omega arith)
c_string-chars (suc limit) m at [] same n h =
    rw (eq→== (m at) 0 (ap m (omega arith) ∙ same 0 (omega arith))) refl
c_string-chars (suc limit) m at (c ∷ p) same n h =
    let first : m at ≡ c = ap m (omega arith) ∙ same 0 (omega arith) in
    rw (first, ne→== c 0 n.0)
      (ap (λ s. c ∷ s)
        (c_string-chars limit m (at + 1) p (λ k l. ap m (omega arith) ∙ same (suc k) (omega arith))
          n.1 (omega arith)))

module _ (L : InodeLayout) (F : InodeFields) (stack : Memory) (u_ll limit : ℕ) where
  put_all-before :
      (des : List Memory) (fill : ℕ) (buffer : Memory) (i : ℕ)
      → i < fill
      → put_all L F stack u_ll des fill buffer i ≡ buffer i
  unfolding put_all
  put_all-before [] fill buffer i low = refl
  put_all-before (de ∷ des) fill buffer i low =
      put_all-before des _ _ i (omega arith)
      ∙ put_listing-before L F stack de u_ll fill buffer i low

  -- The command shows, in their order, the paths of the entries that the kernel has put into the buffer
  -- one behind the other, in a short and in a long listing, if each path is without NUL, shorter than
  -- 2 ^ 16 and stored with its length and its NUL.
  pub dispatcher-put_all :
      (des : List Memory) (ps : List (List ℕ)) (fill : ℕ) (buffer : Memory)
      → AllNamed L limit des ps
      → map
          (λ s. s.path)
          (uls_info_dispatcher limit
            (put_all L F stack u_ll des fill buffer)
            (length des)
            u_ll
            fill)
        ≡ ps
  unfolding put_all uls_info_dispatcher
  dispatcher-put_all [] [] fill buffer named = refl
  dispatcher-put_all [] (p ∷ ps) fill buffer named = absurd named
  dispatcher-put_all (de ∷ des) [] fill buffer named = absurd named
  dispatcher-put_all (de ∷ des) (p ∷ ps) fill buffer (n, named) =
      let behind = fill + info_size u_ll in
      let buffer' = put_listing L F stack de u_ll fill buffer in
      let last = put_all L F stack u_ll des (behind + (d_path_length de + 1)) buffer' in
      let len : get 2 fill last ≡ d_path_length de =
        get_cong 2 fill last buffer'
          (λ i low high. put_all-before des _ buffer' i (ground (arith, low, high)))
        ∙ put_listing-length L F stack de u_ll fill buffer
            (omega (arith, n.length_field, n.fits)) in
      let path : c_string limit last behind ≡ p =
        c_string-chars limit last behind p
          (λ k h.
            put_all-before des _ buffer' (behind + k) (omega (arith, n.length_field))
            ∙ put_listing-path L F stack de u_ll fill buffer k (omega (arith, n.length_field))
            ∙ n.chars k h)
          n.no_nul n.short in
      rw (len, path)
        (ap (λ rest. p ∷ rest)
          (dispatcher-put_all des ps (behind + (d_path_length de + 1)) buffer' named))

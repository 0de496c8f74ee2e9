-- ===== src/Undel/Ioctl/Bytes.antt =====
-- The bytes of one entry in the buffer of `ext3u_do_uls`.
use ext3u.Common.{
  ℕ, ◌+◌, ◌^◌, ◌≤◌, ◌<◌, ◌≡◌, ap, ◌∙◌, inl, inr, Bool-cases, ◌==◌, List, [], ◌∷◌, Memory, get,
  get_shift, get_cong, get-put, get-put_disjoint, memcpy_inside, memcpy_outside, arith,
}
use ext3u.Undel.Layout.{InodeLayout, entry_size, d_path_length}
use ext3u.Undel.Ioctl.{InodeFields, uls_entry, uls_entry_bytes, info_size, put_info, put_listing}

-- The entries put into the buffer one behind the other, as the kernel's loop does.
unfoldable pub put_all :
    InodeLayout
    → InodeFields
    → (stack : Memory) (u_ll : ℕ) → List Memory
    → (fill : ℕ) → Memory
    → Memory
put_all L F stack u_ll [] fill buffer = buffer
put_all L F stack u_ll (de ∷ des) fill buffer =
    put_all L F stack u_ll des (fill + info_size u_ll + (d_path_length de + 1))
      (put_listing L F stack de u_ll fill buffer)

uls_entry-length :
    (L : InodeLayout) (F : InodeFields) (stack de : Memory)
    → d_path_length de < 2 ^ 16
    → get 2 0 (uls_entry L F stack de) ≡ d_path_length de
unfolding uls_entry
uls_entry-length L F stack de fits =
    get-put_disjoint 2 0 4 36 _ _ (omega arith)
    ∙ get-put_disjoint 2 0 2 32 _ _ (omega arith)
    ∙ get-put_disjoint 2 0 2 30 _ _ (omega arith)
    ∙ get-put_disjoint 2 0 2 28 _ _ (omega arith)
    ∙ get-put_disjoint 2 0 4 24 _ _ (omega arith)
    ∙ get-put_disjoint 2 0 8 8 _ _ (omega arith)
    ∙ get-put 2 0 (d_path_length de) stack fits

module _ (L : InodeLayout) (F : InodeFields) (stack de : Memory) (u_ll fill : ℕ)
    (buffer : Memory) where
  -- What stands before the entry stays.
  pub put_listing-before :
      (i : ℕ) → i < fill → put_listing L F stack de u_ll fill buffer i ≡ buffer i
  unfolding put_listing put_info
  put_listing-before i low =
      memcpy_outside _ (fill + info_size u_ll) de (entry_size L) (d_path_length de + 1) i
        (inl (omega arith))
      ∙ elim (Bool-cases (u_ll == 1)) [
        | inl e ↦ rw e (memcpy_outside buffer fill _ 0 uls_entry_bytes i (inl low))
        | inr e ↦ rw e (memcpy_outside buffer fill de 64 2 i (inl low))
      ]

  -- The path with its NUL.
  pub put_listing-path :
      (k : ℕ)
      → k ≤ d_path_length de
      → put_listing L F stack de u_ll fill buffer (fill + info_size u_ll + k)
        ≡ de (entry_size L + k)
  unfolding put_listing
  put_listing-path k h =
      memcpy_inside _ (fill + info_size u_ll) de (entry_size L) (d_path_length de + 1)
        (fill + info_size u_ll + k) (omega arith) (omega arith)
      ∙ ap de (omega arith)

  -- The path's length stands first, in a short and in a long listing.
  pub put_listing-length :
      d_path_length de < 2 ^ 16
      → get 2 fill (put_listing L F stack de u_ll fill buffer) ≡ d_path_length de
  unfolding put_listing put_info
  put_listing-length fits =
      get_cong 2 fill _ (put_info L F stack de u_ll fill buffer) (λ i p q.
        memcpy_outside _ (fill + info_size u_ll) de (entry_size L) (d_path_length de + 1) i
          (inl (ground arith)))
      ∙ elim (Bool-cases (u_ll == 1)) [
        | inl e ↦ rw e (
            get_shift 2 fill 0 _ (uls_entry L F stack de) (λ k h.
              memcpy_inside buffer fill (uls_entry L F stack de) 0 uls_entry_bytes (fill + k)
                (omega arith) (omega arith)
              ∙ ap (uls_entry L F stack de) (omega arith))
            ∙ uls_entry-length L F stack de fits)
        | inr e ↦ rw e (
            get_shift 2 fill 64 _ de (λ k h.
              memcpy_inside buffer fill de 64 2 (fill + k) (omega arith) (omega arith)
              ∙ ap de (omega arith)))
      ]

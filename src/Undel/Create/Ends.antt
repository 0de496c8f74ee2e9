-- ===== src/Undel/Create/Ends.antt =====
-- The attempts of `ext3u_create` come to an end.
use ext3u.Common.{
  ℕ, zero, suc, ◌+◌, ◌≤◌, ◌≡◌, refl, ◌≢◌, inl, inr, Bool-cases, Option-cases, Bool, true, false,
  ◌&&◌, ◌==◌, none, some, List, Memory, Result-cases, hangs, arith,
}
use ext3u.Undel.Restore.{RawInode, InodeSizes}
use ext3u.Undel.Vfs.{Vfs}
use ext3u.Undel.Create.{should_retry, attempt, enospc, create_loop, create}

-- No call of stock ext3 hangs.
pub record Returns {V : Type 0} (F : Vfs V) : Type 0 where
  pub starts : (v : V) (dir : ℕ) → F.ext3_journal_start v dir ≢ hangs
  pub makes : (v : V) (dir : ℕ) → (F.ext3_new_inode v dir).0 ≢ hangs
  pub enters :
      (v : V) (dir : ℕ) (name : List ℕ) (ino : ℕ) → (F.ext3_add_nondir v dir name ino).0 ≢ hangs

and-right : (a b : Bool) → a && b ≡ true → b ≡ true
and-right true b e = e
and-right false b e = cc

module _ {V : Type 0} {F : Vfs V} (S : InodeSizes) (raw : Memory → RawInode)
    (returns : Returns F) where
  attempt-returns :
      (v : V) (dir : ℕ) (name : List ℕ) (de : Memory) → (attempt F S raw v dir name de).0 ≢ hangs
  unfolding attempt
  attempt-returns v dir name de = elim (Result-cases (F.ext3_new_inode v dir).0) [
    | inl (ino, m) ↦ rw (m, attempt) (returns.enters _ dir name ino)
    | inr (inl (e, m)) ↦ rw (m, attempt) (λ h. cc)
    | inr (inr m) ↦ λ h. returns.makes v dir m
  ]

  should_retry-bound :
      (v : V) (retries : ℕ)
      → (should_retry F S raw v retries).0 ≡ true
      → (retries ≤ 3) × ((should_retry F S raw v retries).1 ≡ retries + 1)
  unfolding should_retry
  should_retry-bound v retries again = ground (arith, again)

  create_loop-returns :
      (fuel retries : ℕ) (v : V) (dir : ℕ) (name : List ℕ) (de : Memory)
      → fuel + retries ≡ 5
      → retries ≤ 4
      → (create_loop F S raw fuel retries v dir name de).0 ≢ hangs
  unfolding create_loop
  create_loop-returns zero retries v dir name de sum low = omega (arith, sum, low)
  create_loop-returns (suc fuel) retries v dir name de sum low =
      let tried = attempt F S raw v dir name de in
      elim (Result-cases (F.ext3_journal_start v dir)) [
        | inr (inr j) ↦ λ h. returns.starts v dir j
        | inr (inl (e, j)) ↦ rw (j, create_loop) (λ h. cc)
        | inl (x, j) ↦ elim (Result-cases tried.0) [
          | inl (y, t) ↦ rw (j, t, create_loop) (λ h. cc)
          | inr (inr t) ↦ λ h. attempt-returns v dir name de t
          | inr (inl (e, t)) ↦
              elim (Bool-cases ((e == enospc) && (should_retry F S raw tried.1 retries).0)) [
                | inr again ↦ rw (j, t, again, create_loop) (λ h. cc)
                | inl again ↦
                    let bound =
                      should_retry-bound tried.1 retries
                        (and-right (e == enospc) (should_retry F S raw tried.1 retries).0 again) in
                    rw (j, t, again, create_loop)
                      (create_loop-returns fuel _ tried.1 dir name de (omega (arith, sum, bound.1))
                        (omega (arith, bound)))
              ]
        ]
      ]

  -- Where no call of stock ext3 hangs, `ext3u_create` returns: five attempts are enough, whatever the file
  -- system has free and however the commits end.
  pub create-returns :
      (v : V) (dir : ℕ) (name : List ℕ) (de : Memory) → (create F S raw v dir name de).0 ≢ hangs
  unfolding create
  create-returns v dir name de = elim (Option-cases (F.d_lookup v dir name)) [
    | inl n ↦ elim (Bool-cases (F.allocates v dir name)) [
      | inl a ↦ rw (n, a, create) (create_loop-returns 5 0 v dir name de refl (omega arith))
      | inr a ↦ rw (n, a, create) (λ h. cc)
    ]
    | inr (none, s) ↦ rw (s, create) (create_loop-returns 5 0 v dir name de refl (omega arith))
    | inr (some ino, s) ↦ rw (s, create) (λ h. cc)
  ]

-- ===== src/Undel/Target/Existing.antt =====
-- A directory that exists is found by `ext3u_get_target_directory`, and none is made.
use ext3u.Common.{
  ℕ, ◌≡◌, refl, sym, ap, ◌∙◌, inl, inr, Option-cases, Bool-cases, true, ◌||◌, Option, none, some,
  List, [], ◌∷◌, ok, some_inj,
}
use ext3u.Undel.Path.{is_root_name}
use ext3u.Undel.Restore.{Tree, tokens}
use ext3u.Undel.Restore.Lookup.{Leads, arrived, stays, enters}
use ext3u.Undel.Vfs.{Vfs}
use ext3u.Undel.Target.{disk_step, target_step, target_loop, target_directory}

-- The cache shows what is on disk, a dentry can be had for each name, and neither a new dentry nor its
-- inode changes the directories or what the cache says of the others. `Good` holds of the states that arise.
pub record Coherent {V : Type 0} (F : Vfs V) (Good : V → Type 0) : Type 0 where
  pub cached :
      (v : V) (dir : ℕ) (name : List ℕ) (dentry : Option ℕ)
      → Good v
      → F.d_lookup v dir name ≡ some dentry
      → (F.tree v).ext3_find_entry dir name ≡ dentry
  pub memory : (v : V) (dir : ℕ) (name : List ℕ) → Good v → F.allocates v dir name ≡ true
  pub stable :
      (v : V) (dir : ℕ) (name : List ℕ) (ino : ℕ)
      → Good v
      → (F.tree v).ext3_find_entry dir name ≡ some ino
      → F.tree (F.instantiate (F.rehash v dir name) dir name ino) ≡ F.tree v
  pub good :
      (v : V) (dir : ℕ) (name : List ℕ) (ino : ℕ)
      → Good v
      → (F.tree v).ext3_find_entry dir name ≡ some ino
      → Good (F.instantiate (F.rehash v dir name) dir name ino)

module _ {V : Type 0} {F : Vfs V} {Good : V → Type 0} (coherent : Coherent F Good) where
  target_step-disk :
      (v : V) (dir : ℕ) (name : List ℕ) (ino : ℕ)
      → Good v
      → F.d_lookup v dir name ≡ none
      → (F.tree v).ext3_find_entry dir name ≡ some ino
      → (F.tree v).iget ino ≡ true
      → target_step F v dir name ≡ (ok ino, F.instantiate (F.rehash v dir name) dir name ino)
  unfolding target_step disk_step
  target_step-disk v dir name ino g n e i =
      rw (n, e, target_step) (rw (coherent.memory v dir name g, i, disk_step) refl)

  -- One round on a name that the directory has.
  target_step-found :
      (v : V) (dir : ℕ) (name : List ℕ) (ino : ℕ)
      → Good v
      → (F.tree v).ext3_find_entry dir name ≡ some ino
      → (F.tree v).iget ino ≡ true
      → (v' : V) × (target_step F v dir name ≡ (ok ino, v')) × (F.tree v' ≡ F.tree v) × Good v'
  unfolding target_step
  target_step-found v dir name ino g e i = elim (Option-cases (F.d_lookup v dir name)) [
    | inl n ↦ (
      F.instantiate (F.rehash v dir name) dir name ino,
      target_step-disk v dir name ino g n e i,
      coherent.stable v dir name ino g e,
      coherent.good v dir name ino g e,
    )
    | inr (none, s) ↦ cc (coherent.cached v dir name none g s, e)
    | inr (some ino', s) ↦
        let same = some_inj (sym (coherent.cached v dir name (some ino') g s) ∙ e) in
        (v, rw (s, target_step) (ap (λ k. (ok k, v)) same), refl, g)
  ]

  -- The first directory on a way is one that can be read.
  Leads-iget :
      {T : Tree} {names : List (List ℕ)} {dir last : ℕ}
      → Leads T names dir last
      → T.iget last ≡ true
      → T.iget dir ≡ true
  Leads-iget arrived i = i
  Leads-iget (stays way) i = Leads-iget way i
  Leads-iget (enters r x e way) i = r

  target_loop-Leads :
      {T : Tree} {names : List (List ℕ)} {dir last : ℕ} (v : V)
      → Leads T names dir last
      → T.iget last ≡ true
      → F.tree v ≡ T
      → Good v
      → (v' : V) × (target_loop F names v dir ≡ (ok last, v')) × (F.tree v' ≡ T) × Good v'
  unfolding target_loop
  target_loop-Leads v arrived i t g = (v, refl, t, g)
  target_loop-Leads v (stays way) i t g = target_loop-Leads v way i t g
  target_loop-Leads v (enters {c} {name} {names} {ino} {next} r x e way) i t g =
      let (v₁, found, t₁, g₁) =
        target_step-found v ino (c ∷ name) next g (ap (λ T. T.ext3_find_entry ino (c ∷ name)) t ∙ e)
          (ap (λ T. T.iget next) t ∙ Leads-iget way i) in
      let (v₂, rest, t₂, g₂) = target_loop-Leads v₁ way i (t₁ ∙ t) g₁ in
      (v₂, rw (found, target_loop) (ap (λ w. target_loop F names w.1 next) found ∙ rest), t₂, g₂)

  target_loop-root :
      (v : V) (path : List ℕ) (dir : ℕ)
      → is_root_name path ≡ true
      → target_loop F (tokens path []) v dir ≡ (ok dir, v)
  unfolding target_loop tokens
  target_loop-root v [] dir e = cc
  target_loop-root v (c ∷ []) dir e = rw e refl
  target_loop-root v (c ∷ d ∷ path) dir e = cc

  target_directory-loop :
      (v : V) (path : List ℕ)
      → (F.tree v).iget (F.tree v).root_ino ≡ true
      → F.d_find_alias v (F.tree v).root_ino || F.d_alloc_root v ≡ true
      → target_directory F path v ≡ target_loop F (tokens path []) v (F.tree v).root_ino
  unfolding target_directory
  target_directory-loop v path i a = elim (Bool-cases (is_root_name path)) [
    | inl r ↦ rw (i, a, r, target_directory) (sym (target_loop-root v path _ r))
    | inr r ↦ rw (i, a, r, target_directory) refl
  ]

  -- A path whose names lead to a directory, each of them in the directory before it, gives that directory, in
  -- the cache or not, and the directories on disk are as before: nothing is made. The root has a
  -- dentry or gets one.
  pub target_directory-Leads :
      (v : V) (path : List ℕ) (last : ℕ)
      → Good v
      → F.d_find_alias v (F.tree v).root_ino || F.d_alloc_root v ≡ true
      → Leads (F.tree v) (tokens path []) (F.tree v).root_ino last
      → (F.tree v).iget last ≡ true
      → ((target_directory F path v).0 ≡ ok last)
        × (F.tree (target_directory F path v).1 ≡ F.tree v)
  target_directory-Leads v path last g alias way i =
      let (v', found, t, g') = target_loop-Leads v way i refl g in
      rw (target_directory-loop v path (Leads-iget way i) alias, found) (refl, t)

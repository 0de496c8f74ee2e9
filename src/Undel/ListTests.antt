-- ===== src/Undel/ListTests.antt =====
-- The theorems on the links of the list, on restoring a file and on the uls request at concrete inputs.
use ext3u.Common.{
  ℕ, ◌+◌, ◌<◌, ◌≤◌, ◌≡◌, refl, sym, ap, ◌∙◌, ◌≢◌, inl, inr, true, List, [], ◌∷◌, put, get, ok, ◌%◌,
  ◌^◌, Memory, arith, zeroed, put-bytes,
}
use ext3u.Undel.Samples.{
  test_env, test_layout, test_usb, test_fields, path_disk, test_disk, in_ring, path_entry,
  first_block, two_disk, first_header, path_stored, path_permitted, path_room, test_block-bytes,
}
use ext3u.Undel.Layout.{put_record, get_record, d_size}
use ext3u.Undel.Ring.{Place, place, walk}
use ext3u.Undel.Disk.{Disk}
use ext3u.Undel.Copy.{fetch_entry}
use ext3u.Undel.Links.{delete_entry}
use ext3u.Undel.Links.Chain.{Has, Distinct, Linked}
use ext3u.Undel.Links.Fields.{next_of, prev_of, Headers, Apart}
use ext3u.Undel.Links.Unlink.{null_place, delete_entry-Linked}
use ext3u.Undel.Ioctl.{UlsInfo, do_uls}
use ext3u.Undel.Ioctl.Bytes.{put_all}
use ext3u.Undel.Ioctl.Lists.{do_uls-Reply}
use ext3u.Undel.Ring.Walk.{walk_within}
use ext3u.Undel.Super.Distance.{distance}
use ext3u.Undel.Super.Delete.{at_record}
use ext3u.Undel.Room.{Freeing, drop_entry}
use ext3u.Undel.Room.Intact.{Intact}
use ext3u.Undel.Room.Oldest.{drop_entry-oldest}
use ext3u.Undel.Copy.RoundTrip.{Agrees}
use ext3u.Undel.Save.{put_link, link_last, append_entry}
use ext3u.Undel.Save.Ready.{Appends}
use ext3u.Undel.Save.Appended.{append_entry-Linked}
use ext3u.Undel.Links.Steps.{Deletions, not_yet, then_one, IsList, Deletions-IsList}

abbrev two_places : List Place
two_places = place 1 4 ∷ place 2 4 ∷ []

first_header-bytes : (i : ℕ) → first_header i < 256
unfolding put_record
first_header-bytes i =
    put-bytes 2 30 79 _
      (put-bytes 2 28 4 _
        (put-bytes 8 20 102 _ (put-bytes 4 12 2 _ (put-bytes 2 68 2 _ test_block-bytes))))
      (i + 4)

two-Headers : Headers test_env two_places
two-Headers = record { readable = λ q h. refl; low = low; apart = apart }
  where
    low : (q : Place) → Has q two_places → 4 ≤ q.offset
    low q (inl e) = omega (arith, ap (λ p. p.offset) e)
    low q (inr (inl e)) = omega (arith, ap (λ p. p.offset) e)
    low q (inr (inr h)) = absurd h

    other : {p q : Place} {a b : ℕ} → p ≡ place a 4 → q ≡ place b 4 → a ≢ b → Apart p q
    other e f ne = inl (λ g. ne (sym (ap (λ p. p.block) e) ∙ g ∙ ap (λ p. p.block) f))

    apart : (p q : Place) → Has p two_places → Has q two_places → p ≢ q → Apart p q
    apart p q (inl e) (inl f) ne = absurd (ne (e ∙ sym f))
    apart p q (inl e) (inr (inl f)) ne = other e f (λ h. omega (arith, h))
    apart p q (inr (inl e)) (inl f) ne = other e f (λ h. omega (arith, h))
    apart p q (inr (inl e)) (inr (inl f)) ne = absurd (ne (e ∙ sym f))
    apart p q (inr (inr h)) j ne = absurd h
    apart p q (inl e) (inr (inr h)) ne = absurd h
    apart p q (inr (inl e)) (inr (inr h)) ne = absurd h

two-Linked : Linked (next_of two_disk) (prev_of two_disk) null_place two_places null_place
unfolding get put get_record put_record
two-Linked = (refl, refl, (refl, refl, tt))

two-Distinct : Distinct two_places
two-Distinct = (out, (λ h. h, tt))
  where
    out : ¬ Has (place 1 4) (place 2 4 ∷ [])
    out (inl e) = omega (arith, ap (λ p. p.block) e)
    out (inr h) = h

tells_next : get_record 12 first_block ≡ get_record 8 first_header
unfolding get put get_record put_record
tells_next = refl

tells_previous : get_record 36 first_block ≡ get_record 32 first_header
unfolding get put get_record put_record
tells_previous = refl

-- The first of the two entries is deleted.
delete_entry-Linked_example :
    let (r, d') = delete_entry test_env first_header two_disk in
    (r ≡ ok tt)
    × Linked (next_of d') (prev_of d') null_place (place 2 4 ∷ []) null_place
    × (d'.usb ≡ test_usb)
delete_entry-Linked_example =
    delete_entry-Linked test_env two_disk first_header [] (place 1 4) (place 2 4 ∷ []) refl
      first_header-bytes two-Headers two-Distinct tells_next tells_previous two-Linked

abbrev one_deleted :
    Deletions test_env two_disk two_places
      (delete_entry test_env first_header two_disk).1
      (place 2 4 ∷ [])
one_deleted =
    then_one [] (place 1 4) (place 2 4 ∷ []) first_header not_yet first_header-bytes tells_next
      tells_previous

Deletions-IsList_example :
    IsList test_env (delete_entry test_env first_header two_disk).1 (place 2 4 ∷ [])
    × ((delete_entry test_env first_header two_disk).1.usb ≡ test_usb)
Deletions-IsList_example =
    Deletions-IsList test_env two_disk two_places (delete_entry test_env first_header two_disk).1
      (place 2 4 ∷ []) refl one_deleted
      (record { headers = two-Headers; distinct = two-Distinct; linked = two-Linked })

-- A request for a short listing into 60 bytes.
abbrev short_request : UlsInfo
short_request = record {
  u_buffer = zeroed;
  u_buffer_length = 60;
  u_max_files = 0;
  u_read_files = 0;
  u_files = 0;
  u_errcode = 0;
  u_ll = 0;
  u_next_block = 0;
  u_next_offset = 0;
}

do_uls-Reply_example :
    let (r, out) =
      do_uls test_layout test_fields test_env true 0 zeroed path_disk 128 1 short_request in
    (r ≡ ok 0)
    × (out.u_files ≡ 1)
    × (out.u_buffer ≡ put_all test_layout test_fields zeroed 0 (path_entry ∷ []) 0 zeroed)
    × (out.u_next_block ≡ 0)
    × (out.u_errcode ≡ 0)
    × (out.u_ll ≡ 0)
    × (out.u_max_files ≡ 0)
do_uls-Reply_example =
    do_uls-Reply test_layout test_fields test_env 0 zeroed path_disk 1 short_request
      (path_entry ∷ []) refl refl path_stored (path_permitted, tt) path_room (omega arith) refl refl
      refl (omega arith)

-- The first of the two entries is the oldest one.
drop_entry-oldest_example :
    (d' : Disk) × (drop_entry test_layout test_env first_header two_disk ≡ ok d')
    × (at_record d'.usb.s_fifo.f_first ≡ place 2 4)
    × (d'.usb.s_fifo.f_free ≡ (248 + distance 3 128 (place 1 4) (place 2 4)) % 2 ^ 32)
    × Linked (next_of d') (prev_of d') null_place (place 2 4 ∷ []) null_place
drop_entry-oldest_example =
    drop_entry-oldest test_layout test_env two_disk first_header (place 1 4) (place 2 4) [] refl
      first_header-bytes two-Headers two-Distinct tells_next tells_previous two-Linked
      (record { some_block = omega arith; some_room = omega arith }) refl
      (in_ring 1 4 (omega arith) (omega arith) (omega arith) (omega arith))
      (in_ring 2 4 (omega arith) (omega arith) (omega arith) (omega arith))

-- The two entries, both counted.
abbrev counted_disk : Disk
counted_disk = record two_disk {
  usb = record test_usb { s_del = record (test_usb.s_del) { d_file_count = 2 } };
}

-- An entry of 300 bytes, for which the two have to go.
abbrev long_entry : Memory
long_entry = put 2 0 300 zeroed

abbrev always : Freeing
always = record { root_dir = true; enough = true; new_inode = λ k. ok tt }

-- A new entry of 79 bytes, for the second block.
abbrev new_filled : Memory
new_filled = put 2 0 79 zeroed

abbrev new_linked : Memory
new_linked = link_last test_usb.s_fifo.f_last new_filled

new_size : d_size new_linked ≡ 79
unfolding link_last put_link get put
new_size = refl

old-Linked : Linked (next_of test_disk) (prev_of test_disk) null_place (place 1 4 ∷ []) null_place
unfolding get put get_record
old-Linked = (refl, refl, tt)

new-Appends : Appends test_layout test_env test_disk new_filled [] (place 1 4)
new-Appends = record {
  super_readable = refl;
  journal = refl;
  readable = λ b p q. refl;
  ring = record { some_block = omega arith; some_room = omega arith };
  small = omega arith;
  inside = in_ring 2 4 (omega arith) (omega arith) (omega arith) (omega arith);
  room = omega arith;
  long = omega (arith, new_size);
  fits = omega (arith, new_size);
  first_some = λ e. omega (arith, e);
  last_is = refl;
  last_fits = record {
    block_fits = omega arith;
    real_block_fits = omega arith;
    offset_fits = omega arith;
    size_fits = omega arith;
  };
  here_fits = record {
    block_fits = omega arith;
    real_block_fits = omega arith;
    offset_fits = omega arith;
    size_fits = omega (arith, new_size);
  };
  headers = two-Headers;
  distinct = ((λ h. h), tt);
  free = free;
  linked = old-Linked;
}
  where
    free :
        (q : Place) (i k : ℕ)
        → Has q (place 1 4 ∷ [])
        → i < 72
        → k < d_size new_linked
        → walk 3 128 k (place 2 4) ≢ place q.block (q.offset + i)
    free q i k (inl e) low h same = omega (
      arith,
      ap (λ r. r.block) (sym (walk_within 3 128 k 2 4 (omega (arith, new_size))) ∙ same),
      ap (λ r. r.block) e,
    )
    free q i k (inr h) low g same = h

append_entry-Linked_example :
    (d' : Disk) × (append_entry test_layout test_env new_filled test_disk ≡ (ok tt, d'))
    × (at_record d'.usb.s_fifo.f_last ≡ place 2 4)
    × Linked (next_of d') (prev_of d') null_place (place 1 4 ∷ place 2 4 ∷ []) null_place
    × Agrees new_linked (d_size new_linked) (fetch_entry test_env 3 128 d' 2 4)
append_entry-Linked_example = append_entry-Linked new-Appends

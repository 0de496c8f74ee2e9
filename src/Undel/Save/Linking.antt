-- ===== src/Undel/Save/Linking.antt =====
-- The end of `ext3u_save`: the new entry becomes the last one of the linked list.
use mathlib.Core.Path.{subst}
use ext3u.Common.{
  ◌+◌, ◌^◌, ◌<◌, ◌≡◌, refl, sym, ap, ◌∙◌, ◌≢◌, inl, inr, Bool-cases, true, false, ne→==, ltb, List,
  [], ◌∷◌, ◌++◌, Memory, get, put, get-put, get-put_disjoint, ok, arith,
}
use ext3u.Undel.Layout.{
  Record, SuperBlock, InodeLayout, get_record, d_next, d_previous, d_next_at, entry_size, sub32,
}
use ext3u.Undel.Ring.{Place, place}
use ext3u.Undel.Disk.{Disk, Env}
use ext3u.Undel.Super.{update_next}
use ext3u.Undel.Super.Delete.{at_record}
use ext3u.Undel.Links.{update_entry}
use ext3u.Undel.Links.Effect.{Fits}
use ext3u.Undel.Links.Chain.{Has, Distinct, Linked, first, Has-append_right}
use ext3u.Undel.Links.Stored.{RecordPut, update_entry-next}
use ext3u.Undel.Room.{with_usb}
use ext3u.Undel.Save.{put_link, link_last, give_up_rest, count_entry, finish_entry}

first-more :
    (zs : List Place) (w p n : Place) → first (zs ++ (w ∷ [])) n ≡ first (zs ++ (w ∷ p ∷ [])) n
first-more [] w p n = refl
first-more (z ∷ zs) w p n = refl

-- A list with one entry more at its end.
pub Linked-last :
    {nx pv nx' pv' : Place → Place} (a : Place) (ws : List Place) (w p n : Place)
    → Distinct (ws ++ (w ∷ []))
    → ((q : Place) → Has q (ws ++ (w ∷ [])) → q ≢ w → nx' q ≡ nx q)
    → ((q : Place) → Has q (ws ++ (w ∷ [])) → pv' q ≡ pv q)
    → nx' w ≡ p
    → pv' p ≡ w
    → nx' p ≡ n
    → Linked nx pv a (ws ++ (w ∷ [])) n
    → Linked nx' pv' a (ws ++ (w ∷ p ∷ [])) n
Linked-last a [] w p n d f g new before end l = (g w (inl refl) ∙ l.0, new, (before, end, tt))
Linked-last a (z ∷ zs) w p n d f g new before end l = (
  g z (inl refl) ∙ l.0,
  f z (inl refl) (λ e.
        d.0
          (subst (λ q. Has q (zs ++ (w ∷ []))) (sym e) (Has-append_right w zs (w ∷ []) (inl refl))))
      ∙ l.1
      ∙ first-more zs w p n,
  Linked-last z zs w p n d.1 (λ q h. f q (inr h)) (λ q h. g q (inr h)) new before end l.2,
)

-- The links of the new entry, as its bytes tell them.
pub link_last-next :
    (last : Record) (filled : Memory) → at_record (d_next (link_last last filled)) ≡ place 0 0
unfolding link_last put_link get_record
link_last-next last filled = λ i. place (block i) (offset i)
  where
    block : get 4 8 (link_last last filled) ≡ 0
    block =
        get-put_disjoint 4 8 2 26 0 _ (omega arith)
        ∙ get-put_disjoint 4 8 2 24 0 _ (omega arith)
        ∙ get-put 4 8 0 _ (omega arith)

    offset : get 2 24 (link_last last filled) ≡ 0
    offset = get-put_disjoint 2 24 2 26 0 _ (omega arith) ∙ get-put 2 24 0 _ (omega arith)

pub link_last-previous :
    (last : Record) (filled : Memory)
    → last.r_block < 2 ^ 32
    → last.r_offset < 2 ^ 16
    → at_record (d_previous (link_last last filled)) ≡ at_record last
unfolding link_last put_link get_record
link_last-previous last filled narrow low = λ i. place (block i) (offset i)
  where
    block : get 4 32 (link_last last filled) ≡ last.r_block
    block =
        get-put_disjoint 4 32 2 26 0 _ (omega arith)
        ∙ get-put_disjoint 4 32 2 24 0 _ (omega arith)
        ∙ get-put_disjoint 4 32 4 8 0 _ (omega arith)
        ∙ get-put_disjoint 4 32 2 50 last.r_size _ (omega arith)
        ∙ get-put_disjoint 4 32 2 48 last.r_offset _ (omega arith)
        ∙ get-put 4 32 last.r_block _ (omega (arith, narrow))

    offset : get 2 48 (link_last last filled) ≡ last.r_offset
    offset =
        get-put_disjoint 2 48 2 26 0 _ (omega arith)
        ∙ get-put_disjoint 2 48 2 24 0 _ (omega arith)
        ∙ get-put_disjoint 2 48 4 8 0 _ (omega arith)
        ∙ get-put_disjoint 2 48 2 50 last.r_size _ (omega arith)
        ∙ get-put 2 48 last.r_offset _ (omega (arith, low))

give_up_rest-last :
    (L : InodeLayout) (usb : SuperBlock) (end : Place)
    → (give_up_rest L usb end).0.s_fifo.f_last ≡ usb.s_fifo.f_last
unfolding give_up_rest
give_up_rest-last L usb end =
    elim (Bool-cases (ltb (sub32 usb.s_block_size end.offset) (entry_size L))) [
      | inl e ↦ rw (e, give_up_rest) refl
      | inr e ↦ rw (e, give_up_rest) refl
    ]

-- The entry before the new one gets its record, and the superblock too.
pub finish_entry-RecordPut :
    (L : InodeLayout) (E : Env) (update : Record) (new_entry : Memory) (end : Place) (d : Disk)
    → E.journal ≡ true
    → E.readable d.usb.s_fifo.f_last.r_block ≡ true
    → Fits update
    → d.usb.s_fifo.f_last.r_offset ≢ 0
    → (d' : Disk) × (finish_entry L E update new_entry end d ≡ (ok tt, d'))
      × (d'.usb.s_fifo.f_last ≡ update)
      × RecordPut d.usb.s_fifo.f_last.r_block
          (d.usb.s_fifo.f_last.r_offset + d_next_at)
          update
          d
          (with_usb d.usb d')
unfolding finish_entry count_entry
finish_entry-RecordPut L E update new_entry end d journal readable fits some =
    let usb = (give_up_rest L d.usb end).0 in
    let same = give_up_rest-last L d.usb end in
    let last = usb.s_fifo.f_last in
    let d₁ = with_usb usb d in
    let (done, put) =
      update_entry-next E last update d₁ journal (ap (λ r. E.readable r.r_block) same ∙ readable)
        fits in
    let d₂ = (update_entry E false last update update_next d₁).1 in
    (
      with_usb (count_entry L update new_entry (give_up_rest L d.usb end).1 d₂.usb) d₂,
      rw
          (
            ne→== last.r_offset 0 (λ e. some (sym (ap (λ r. r.r_offset) same) ∙ e)),
            done,
            finish_entry,
          )
          refl,
      refl,
      subst (λ r. RecordPut r.r_block (r.r_offset + d_next_at) update d (with_usb d.usb d₂)) same
          (record { there = put.there; kept = put.kept; same_usb = refl }),
    )

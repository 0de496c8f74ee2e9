-- ===== src/Undel/Links/Steps.antt =====
-- Deletions from the list, one after the other and in any order.
use ext3u.Common.{ℕ, ◌+◌, ◌<◌, ◌≡◌, refl, ◌∙◌, inl, inr, true, List, [], ◌∷◌, ◌++◌, Memory}
use ext3u.Undel.Layout.{get_record, d_next, d_previous, d_next_at, d_previous_at}
use ext3u.Undel.Ring.{Place}
use ext3u.Undel.Disk.{Disk, Env}
use ext3u.Undel.Links.{delete_entry}
use ext3u.Undel.Links.Chain.{Has, Distinct, Linked}
use ext3u.Undel.Links.Fields.{next_of, prev_of, Headers}
use ext3u.Undel.Links.Unlink.{null_place, delete_entry-Linked}

-- The blocks and the list after some deletions, each of an entry of the list at that time, given as it is
-- read there: bytes with the two records that stand on its block.
pub data Deletions (E : Env) (d : Disk) (all : List Place) : Disk → List Place → Type 0 where
  not_yet : Deletions E d all d all
  then_one :
      {d₁ : Disk} (xs : List Place) (x : Place) (ys : List Place) (de : Memory)
      → Deletions E d all d₁ (xs ++ (x ∷ ys))
      → ((i : ℕ) → de i < 256)
      → get_record (x.offset + d_next_at) (d₁.b_data x.block) ≡ d_next de
      → get_record (x.offset + d_previous_at) (d₁.b_data x.block) ≡ d_previous de
      → Deletions E d all (delete_entry E de d₁).1 (xs ++ ys)

-- What holds of the list between two calls.
pub record IsList (E : Env) (d : Disk) (all : List Place) : Type 0 where
  pub headers : Headers E all
  pub distinct : Distinct all
  pub linked : Linked (next_of d) (prev_of d) null_place all null_place

Has-more :
    (q : Place) (xs : List Place) (x : Place) (ys : List Place)
    → Has q (xs ++ ys)
    → Has q (xs ++ (x ∷ ys))
Has-more q [] x ys h = inr h
Has-more q (z ∷ zs) x ys (inl e) = inl e
Has-more q (z ∷ zs) x ys (inr h) = inr (Has-more q zs x ys h)

pub Headers-less :
    {E : Env} (xs : List Place) (x : Place) (ys : List Place)
    → Headers E (xs ++ (x ∷ ys))
    → Headers E (xs ++ ys)
Headers-less xs x ys h = record {
  readable = λ q i. h.readable q (Has-more q xs x ys i);
  low = λ q i. h.low q (Has-more q xs x ys i);
  apart = λ p q i j. h.apart p q (Has-more p xs x ys i) (Has-more q xs x ys j);
}

pub Distinct-less :
    (xs : List Place) (x : Place) (ys : List Place)
    → Distinct (xs ++ (x ∷ ys))
    → Distinct (xs ++ ys)
Distinct-less [] x ys d = d.1
Distinct-less (z ∷ zs) x ys d = (λ h. d.0 (Has-more z zs x ys h), Distinct-less zs x ys d.1)

-- Any number of deletions by `ext3u_delete_entry`, in any order, leave a list that is linked in both
-- directions, with its headers in place and no entry twice, and the superblock as it was. A journal
-- handle is there.
pub Deletions-IsList :
    (E : Env) (d : Disk) (all : List Place) (d' : Disk) (left : List Place)
    → E.journal ≡ true
    → Deletions E d all d' left
    → IsList E d all
    → IsList E d' left × (d'.usb ≡ d.usb)
Deletions-IsList E d all _ _ journal not_yet l = (l, refl)
Deletions-IsList E d all _ _ journal (then_one {d₁} xs x ys de before bytes tells_next tells_prev)
      l =
    let (k, same) = Deletions-IsList E d all d₁ (xs ++ (x ∷ ys)) journal before l in
    let (done, linked, usb) =
      delete_entry-Linked E d₁ de xs x ys journal bytes k.headers k.distinct tells_next tells_prev
        k.linked in
    (
      record {
        headers = Headers-less xs x ys k.headers;
        distinct = Distinct-less xs x ys k.distinct;
        linked = linked;
      },
      usb ∙ same,
    )

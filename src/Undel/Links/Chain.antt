-- ===== src/Undel/Links/Chain.antt =====
-- Doubly linked lists of entries, over any functions that give each entry its neighbours.
use mathlib.Core.Path.{subst}
use ext3u.Common.{◌≡◌, refl, sym, ap, ◌∙◌, ◌≢◌, ◌⊎◌, inl, inr, List, [], ◌∷◌, ◌++◌}
use ext3u.Undel.Ring.{Place}

-- The entry stands in the list.
abbrev pub Has : Place → List Place → Type 0
Has q [] = ⊥
Has q (x ∷ xs) = (q ≡ x) ⊎ Has q xs

-- No entry stands twice in the list.
abbrev pub Distinct : List Place → Type 0
Distinct [] = Unit
Distinct (x ∷ xs) = (¬ Has x xs) × Distinct xs

-- The first entry of a list, with what follows the list behind it.
abbrev pub first : List Place → Place → Place
first [] n = n
first (x ∷ xs) n = x

-- The entries of the list follow one another, from the one before the list to the one behind it.
abbrev pub Linked : (nx pv : Place → Place) → Place → List Place → Place → Type 0
Linked nx pv p [] n = Unit
Linked nx pv p (x ∷ xs) n = (pv x ≡ p) × (nx x ≡ first xs n) × Linked nx pv x xs n

pub Has-append_left : (q : Place) (xs ys : List Place) → Has q xs → Has q (xs ++ ys)
Has-append_left q [] ys h = absurd h
Has-append_left q (x ∷ xs) ys (inl e) = inl e
Has-append_left q (x ∷ xs) ys (inr h) = inr (Has-append_left q xs ys h)

pub Has-append_right : (q : Place) (xs ys : List Place) → Has q ys → Has q (xs ++ ys)
Has-append_right q [] ys h = h
Has-append_right q (x ∷ xs) ys h = inr (Has-append_right q xs ys h)

-- Two entries at different places of a list without repetition.
Has-ne : (x y : Place) (ys : List Place) → ¬ Has x ys → Has y ys → x ≢ y
Has-ne x y ys out h e = out (subst (λ z. Has z ys) (sym e) h)

-- In a linked list the neighbours of an entry are the entries beside it.
pub Linked-next :
    (nx pv : Place → Place) (p : Place) (xs : List Place) (x : Place) (ys : List Place) (n : Place)
    → Linked nx pv p (xs ++ (x ∷ ys)) n
    → nx x ≡ first ys n
Linked-next nx pv p [] x ys n l = l.1
Linked-next nx pv p (z ∷ zs) x ys n l = Linked-next nx pv z zs x ys n l.2

pub Linked-previous :
    (nx pv : Place → Place) (p w : Place) (ws : List Place) (x : Place) (ys : List Place)
    (n : Place)
    → Linked nx pv p ((w ∷ ws) ++ (x ∷ ys)) n
    → Has (pv x) (w ∷ ws)
Linked-previous nx pv p w [] x ys n l = inl l.2.0
Linked-previous nx pv p w (v ∷ vs) x ys n l = inr (Linked-previous nx pv w v vs x ys n l.2)

-- What is known of the neighbours when `x` is taken out: the next entry has the previous one of `x`
-- and the other way round, where these are entries of the list, and all else is as before.
pub record TakenOut (nx pv nx' pv' : Place → Place) (x : Place) (all : List Place) : Type 0 where
  pub next_new : Has (pv x) all → nx' (pv x) ≡ nx x
  pub next_same : (q : Place) → Has q all → q ≢ x → q ≢ pv x → nx' q ≡ nx q
  pub prev_new : Has (nx x) all → pv' (nx x) ≡ pv x
  pub prev_same : (q : Place) → Has q all → q ≢ x → q ≢ nx x → pv' q ≡ pv q

module _ {nx pv nx' pv' : Place → Place} (x : Place) (all : List Place)
    (taken : TakenOut nx pv nx' pv' x all) where
  -- Entries that are not beside `x` keep their neighbours.
  far-Linked :
      (p : Place) (xs : List Place) (n : Place)
      → ((q : Place) → Has q xs → Has q all × (q ≢ x) × (q ≢ pv x) × (q ≢ nx x))
      → Linked nx pv p xs n
      → Linked nx' pv' p xs n
  far-Linked p [] n far l = tt
  far-Linked p (y ∷ ys) n far l =
      let (h, a, b, c) = far y (inl refl) in
      (
        taken.prev_same y h a c ∙ l.0,
        taken.next_same y h a b ∙ l.1,
        far-Linked y ys n (λ q i. far q (inr i)) l.2,
      )

  -- The entries behind `x`, now behind the one before it.
  after-Linked :
      (ys : List Place) (n : Place)
      → ¬ Has (pv x) ys
      → ¬ Has x ys
      → Distinct ys
      → ((q : Place) → Has q ys → Has q all)
      → nx x ≡ first ys n
      → Linked nx pv x ys n
      → Linked nx' pv' (pv x) ys n
  after-Linked [] n np nox d within en l = tt
  after-Linked (y ∷ ys) n np nox d within en l = (
    ap pv' (sym en) ∙ taken.prev_new (subst (λ z. Has z all) (sym en) (within y (inl refl))),
    taken.next_same y (within y (inl refl)) (λ e. nox (inl (sym e))) (λ e. np (inl (sym e))) ∙ l.1,
    far-Linked y ys n
        (λ q h. (
          within q (inr h),
          λ e. Has-ne x q (y ∷ ys) nox (inr h) (sym e),
          λ e. Has-ne (pv x) q (y ∷ ys) np (inr h) (sym e),
          λ e. Has-ne y q ys d.0 h (sym (e ∙ en)),
        ))
        l.2,
  )

  -- An entry before `x` is neither `x` nor the one behind it, and so keeps its previous one.
  ahead-previous :
      (p z : Place) (zs ys : List Place) (n : Place)
      → ¬ Has z (zs ++ (x ∷ ys))
      → z ≢ n
      → Has z all
      → Linked nx pv p (z ∷ (zs ++ (x ∷ ys))) n
      → pv' z ≡ p
  ahead-previous p z zs ys n out ne here l =
      taken.prev_same z here
        (Has-ne z x (zs ++ (x ∷ ys)) out (Has-append_right x zs (x ∷ ys) (inl refl)))
        (λ e. other ys out (e ∙ Linked-next nx pv z zs x ys n l.2))
      ∙ l.0
    where
      other : (ys : List Place) → ¬ Has z (zs ++ (x ∷ ys)) → z ≢ first ys n
      other [] out e = ne e
      other (y ∷ ys) out e =
          Has-ne z y (zs ++ (x ∷ y ∷ ys)) out (Has-append_right y zs (x ∷ y ∷ ys) (inr (inl refl)))
            e

  -- Without `x` the list is linked.
  pub Linked-remove :
      (p : Place) (xs ys : List Place) (n : Place)
      → Distinct (xs ++ (x ∷ ys))
      → ¬ Has p (xs ++ (x ∷ ys))
      → ¬ Has n (xs ++ (x ∷ ys))
      → ((q : Place) → Has q (xs ++ (x ∷ ys)) → Has q all)
      → Linked nx pv p (xs ++ (x ∷ ys)) n
      → Linked nx' pv' p (xs ++ ys) n
  Linked-remove p [] ys n d np nn within l =
      subst (λ z. Linked nx' pv' z ys n) l.0
        (after-Linked ys n (λ h. np (inr (subst (λ z. Has z ys) l.0 h))) d.0 d.1
          (λ q h. within q (inr h)) l.1 l.2)
  Linked-remove p (z ∷ []) ys n d np nn within l = (
    ahead-previous p z [] ys n d.0 (λ e. nn (inl (sym e))) (within z (inl refl)) l,
    ap nx' (sym l.2.0)
        ∙ taken.next_new (subst (λ q. Has q all) (sym l.2.0) (within z (inl refl)))
        ∙ l.2.1,
    Linked-remove z [] ys n d.1 d.0 (λ h. nn (inr h)) (λ q h. within q (inr h)) l.2,
  )
  Linked-remove p (z ∷ w ∷ ws) ys n d np nn within l = (
    ahead-previous p z (w ∷ ws) ys n d.0 (λ e. nn (inl (sym e))) (within z (inl refl)) l,
    taken.next_same z (within z (inl refl))
          (Has-ne z x (w ∷ (ws ++ (x ∷ ys))) d.0 (Has-append_right x (w ∷ ws) (x ∷ ys) (inl refl)))
          (Has-ne z (pv x) (w ∷ (ws ++ (x ∷ ys))) d.0
            (Has-append_left (pv x) (w ∷ ws) (x ∷ ys) (Linked-previous nx pv z w ws x ys n l.2)))
        ∙ l.1,
    Linked-remove z (w ∷ ws) ys n d.1 d.0 (λ h. nn (inr h)) (λ q h. within q (inr h)) l.2,
  )

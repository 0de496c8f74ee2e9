-- ===== src/Undel/Links/Fields.antt =====
-- The links of the headers on the blocks, and what storing one of them does to the others.
use native.Mathlib.Decide.{ℕ_discrete}
use ext3u.Common.{ℕ, ◌+◌, ◌≤◌, ◌<◌, ◌≡◌, ap, ◌≢◌, ◌⊎◌, inl, inr, true, List, arith}
use ext3u.Undel.Layout.{Record, get_record, d_next_at, d_previous_at, header_size}
use ext3u.Undel.Ring.{Place, place}
use ext3u.Undel.Disk.{Disk, Env}
use ext3u.Undel.Super.Delete.{at_record}
use ext3u.Undel.Links.Effect.{get_record-cong}
use ext3u.Undel.Links.Chain.{Has}
use ext3u.Undel.Links.Stored.{RecordPut}

-- The entry that the record at offset `k` of a header points to.
abbrev pub field : (k : ℕ) → Disk → Place → Place
field k d q = at_record (get_record (q.offset + k) (d.b_data q.block))

abbrev pub next_of : Disk → Place → Place
next_of = field d_next_at

abbrev pub prev_of : Disk → Place → Place
prev_of = field d_previous_at

-- Two headers have no byte in common.
abbrev pub Apart : Place → Place → Type 0
Apart p q =
    (p.block ≢ q.block)
    ⊎ ((p.offset + header_size ≤ q.offset) ⊎ (q.offset + header_size ≤ p.offset))

-- The headers of a list: each is in a block that can be read, behind the block's own header, and they
-- do not overlap.
pub record Headers (E : Env) (all : List Place) : Type 0 where
  pub readable : (q : Place) → Has q all → E.readable q.block ≡ true
  pub low : (q : Place) → Has q all → 4 ≤ q.offset
  pub apart : (p q : Place) → Has p all → Has q all → p ≢ q → Apart p q

pub Place-cases : (p q : Place) → (p ≡ q) ⊎ (p ≢ q)
Place-cases p q = elim (ℕ_discrete p.block q.block) [
  | no b ↦ inr (λ e. b (ap (λ r. r.block) e))
  | yes b ↦ elim (ℕ_discrete p.offset q.offset) [
    | no o ↦ inr (λ e. o (ap (λ r. r.offset) e))
    | yes o ↦ inl (λ i. place (b i) (o i))
  ]
]

module _ {E : Env} {all : List Place} (headers : Headers E all) {d d' : Disk} (e : Place)
    (here : Has e all) (k : ℕ) (r : Record) (put : RecordPut e.block (e.offset + k) r d d')
    (fits : k + 20 ≤ header_size) where
  -- The field that was set.
  pub field-put : field k d' e ≡ at_record r
  field-put = ap at_record put.there

  -- The fields of another header.
  pub field-other :
      (j : ℕ) (q : Place) → j + 20 ≤ header_size → Has q all → q ≢ e → field j d' q ≡ field j d q
  field-other j q inside has other =
      ap at_record
        (get_record-cong (q.offset + j) _ _ (λ i low high. put.kept q.block i (away i low high)))
    where
      away :
          (i : ℕ)
          → q.offset + j ≤ i
          → i < q.offset + j + 20
          → (q.block ≢ e.block) ⊎ ((4 ≤ i) × ((i < e.offset + k) ⊎ (e.offset + k + 20 ≤ i)))
      away i low high = elim (headers.apart q e has here other) [
        | inl b ↦ inl b
        | inr (inl o) ↦ inr (omega (arith, headers.low q has), inl (omega arith))
        | inr (inr o) ↦ inr (omega (arith, headers.low q has), inr (omega arith))
      ]

  -- Another field of the same header.
  pub field-beside : (j : ℕ) → 4 ≤ j → (j + 20 ≤ k) ⊎ (k + 20 ≤ j) → field j d' e ≡ field j d e
  field-beside j some_j beside = ap at_record (
      get_record-cong (e.offset + j) _ _
        (λ i low high. put.kept e.block i (inr (omega arith, away i low high beside))))
    where
      away :
          (i : ℕ)
          → e.offset + j ≤ i
          → i < e.offset + j + 20
          → (j + 20 ≤ k) ⊎ (k + 20 ≤ j)
          → (i < e.offset + k) ⊎ (e.offset + k + 20 ≤ i)
      away i low high (inl o) = inl (omega arith)
      away i low high (inr o) = inr (omega arith)

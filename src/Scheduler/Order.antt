-- ===== src/Scheduler/Order.antt =====
-- custom_components/carnet_scolaire/scheduler.py: the sort of `due`.
use ha_pronote_ng.Prelude.{
  ◌<◌, ◌≡◌, ◌⊎◌, ◌↔◌, inl, inr, Bool, true, false, List, [], ◌∷◌, map, arith, if◌then◌else◌,
  Bool-cases,
}
use ha_pronote_ng.Const.{Tier}
use ha_pronote_ng.Scheduler.Due.{
  more_overdue, Overdue, infinitely, by, Candidate, before, insert, sort,
}

-- A tier stands in a list.
abbrev pub In : Tier → List Tier → Type 0
In a [] = ⊥
In a (b ∷ bs) = (a ≡ b) ⊎ In a bs

-- A candidate may stand before another: it has a lower rank, or the same rank and is no less overdue.
abbrev pub Precedes : Candidate → Candidate → Type 0
Precedes a b = (a.rank < b.rank) ⊎ ((a.rank ≡ b.rank) × (more_overdue b.late a.late ≡ false))

abbrev pub Sorted : List Candidate → Type 0
Sorted [] = Unit
Sorted (a ∷ []) = Unit
Sorted (a ∷ b ∷ rest) = Precedes a b × Sorted (b ∷ rest)

more_overdue_asymm : (a b : Overdue) → more_overdue a b ≡ true → more_overdue b a ≡ false
unfolding more_overdue
more_overdue_asymm infinitely b h = ground arith
more_overdue_asymm (by d) b h = ground arith

Precedes-of_before : (a b : Candidate) → before a b ≡ true → Precedes a b
unfolding before
Precedes-of_before a b h = ground (arith, more_overdue_asymm a.late b.late)

Precedes-of_not_before : (a b : Candidate) → before a b ≡ false → Precedes b a
unfolding before
Precedes-of_not_before a b h = ground (arith, more_overdue_asymm a.late b.late)

Sorted-tail : (a : Candidate) (bs : List Candidate) → Sorted (a ∷ bs) → Sorted bs
Sorted-tail a [] h = tt
Sorted-tail a (b ∷ bs) h = h.1

Sorted-cons-insert :
    (a b : Candidate) (bs : List Candidate)
    → Precedes b a
    → Sorted (b ∷ bs)
    → Sorted (insert a bs)
    → Sorted (b ∷ insert a bs)
unfolding insert
Sorted-cons-insert a b [] after h ih = (after, tt)
Sorted-cons-insert a b (c ∷ cs) after h ih =
    elim (before a c)
        as (λ (x : Bool).
          Sorted (if x then a ∷ c ∷ cs else c ∷ insert a cs)
          → Sorted (b ∷ (if x then a ∷ c ∷ cs else c ∷ insert a cs))) [
            | true ↦ λ k. (after, k)
            | false ↦ λ k. (h.0, k)
          ]
      ih

insert-Sorted : (a : Candidate) (bs : List Candidate) → Sorted bs → Sorted (insert a bs)
unfolding insert
insert-Sorted a [] h = tt
insert-Sorted a (b ∷ bs) h = elim (Bool-cases (before a b)) [
  | inl first ↦ rw first (Precedes-of_before a b first, h)
  | inr after ↦ rw after (
      Sorted-cons-insert a b bs (Precedes-of_not_before a b after) h
        (insert-Sorted a bs (Sorted-tail b bs h)))
]

-- The sort of `due` puts any candidates in the order of sacrifice: each has a lower rank than the
-- next, or the same rank and is no less overdue.
pub sort-Sorted : (cs : List Candidate) → Sorted (sort cs)
unfolding sort
sort-Sorted [] = tt
sort-Sorted (c ∷ cs) = insert-Sorted c (sort cs) (sort-Sorted cs)

abbrev pub tier_of : Candidate → Tier
tier_of c = c.tier

In-insert :
    (x : Tier) (a : Candidate) (bs : List Candidate)
    → In x (map tier_of (insert a bs)) ↔ ((x ≡ a.tier) ⊎ In x (map tier_of bs))
unfolding insert
In-insert x a [] = (λ h. h, λ h. h)
In-insert x a (b ∷ bs) =
    let (f, g) = In-insert x a bs in
    elim (Bool-cases (before a b)) [
      | inl first ↦ rw first (λ h. h, λ h. h)
      | inr after ↦ rw after (
        λ h. elim h [
          | inl p ↦ inr (inl p)
          | inr q ↦ elim (f q) [ inl r ↦ inl r | inr r ↦ inr (inr r) ]
        ],
        λ h. elim h [
          | inl p ↦ inr (g (inl p))
          | inr q ↦ elim q [ inl r ↦ inl r | inr r ↦ inr (g (inr r)) ]
        ],
      )
    ]

pub In-sort :
    (x : Tier) (cs : List Candidate) → In x (map tier_of (sort cs)) ↔ In x (map tier_of cs)
unfolding sort
In-sort x [] = (λ h. h, λ h. h)
In-sort x (c ∷ cs) =
    let (f, g) = In-insert x c (sort cs) in
    let (f', g') = In-sort x cs in
    (
      λ h. elim (f h) [ inl p ↦ inl p | inr q ↦ inr (f' q) ],
      λ h. g (elim h [ inl p ↦ inl p | inr q ↦ inr (g' q) ]),
    )

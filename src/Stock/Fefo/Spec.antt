-- ===== src/Stock/Fefo/Spec.antt =====
-- What the suggestion of fefo.ts promises.
use estoque_saas.Base.{
  ℕ, ◌<◌, ◌≡◌, refl, true, ◌⊎◌, ◌↔◌, inr, List, [], ◌∷◌, arith, ℤ, pos, ◌+ℤ◌, ◌-ℤ◌, ◌≤ℤ◌, leb_ℤ,
  leb, min_ℤ, if◌then◌else◌, select, All, int_laws,
}
use estoque_saas.Shared.Transaction.{ok, crash}
use estoque_saas.Stock.Fefo.{
  FefoBatch, Suggestion, FefoResult, sort, in_stock, take_from, suggest_fefo_batches, insert,
}
use estoque_saas.Stock.Fefo.Order.{
  available_until, ExpiresFrom, IsSorted, IsStocked, sort-IsSorted, candidates-IsStocked,
  available_until-candidates,
}

-- What the suggestions take from batches that expire by day `d`.
abbrev pub suggested_until : ℕ → List Suggestion → ℤ
suggested_until d [] = pos 0
suggested_until d (s ∷ ss) =
    (if leb s.expiry_date d then s.quantity else pos 0) +ℤ suggested_until d ss

-- What the batches hold in all.
abbrev pub available : List FefoBatch → ℤ
available [] = pos 0
available (b ∷ bs) = (if in_stock b then b.quantity else pos 0) +ℤ available bs

available_until-late :
    (d e : ℕ) (bs : List FefoBatch) → d < e → ExpiresFrom e bs → available_until d bs ≡ pos 0
available_until-late d e [] h p = refl
available_until-late d e (b ∷ bs) h p = grind (int_laws, available_until-late d e bs)

available_until_nonneg : (d : ℕ) (bs : List FefoBatch) → pos 0 ≤ℤ available_until d bs
available_until_nonneg d [] = omega arith
available_until_nonneg d (b ∷ bs) = grind (int_laws, available_until_nonneg d bs)

suggested_until-take_from :
    (d : ℕ) (bs : List FefoBatch) (r : ℤ)
    → IsSorted bs
    → IsStocked bs
    → pos 0 ≤ℤ r
    → suggested_until d (take_from bs r).0 ≡ min_ℤ r (available_until d bs)
unfolding take_from
suggested_until-take_from d [] r s p h = ground arith
suggested_until-take_from d (b ∷ bs) r s p h = grind (
  int_laws,
  suggested_until-take_from d bs (r -ℤ min_ℤ b.quantity r) s.1 p.1,
  available_until-late d b.expiry_date bs,
  available_until_nonneg d bs,
)

-- For every day, the suggestion takes from the batches that expire by it as much as they hold, up
-- to the quantity requested: a later batch is used only for what the earlier ones cannot cover.
pub suggest_earliest_first :
    (batches : List FefoBatch) (requested : ℤ) {result : FefoResult} (d : ℕ)
    → suggest_fefo_batches batches requested ≡ ok result
    → suggested_until d result.suggestions ≡ min_ℤ requested (available_until d batches)
unfolding suggest_fefo_batches
suggest_earliest_first batches requested d e =
    let bs = sort (select in_stock batches) in
    ground (
      arith,
      suggested_until-take_from d bs requested (sort-IsSorted (select in_stock batches))
          (candidates-IsStocked batches),
      available_until-candidates d batches,
    )

abbrev pub suggested : List Suggestion → ℤ
suggested [] = pos 0
suggested (s ∷ ss) = s.quantity +ℤ suggested ss

abbrev held : List FefoBatch → ℤ
held [] = pos 0
held (b ∷ bs) = b.quantity +ℤ held bs

held_nonneg : (bs : List FefoBatch) → IsStocked bs → pos 0 ≤ℤ held bs
held_nonneg [] p = omega arith
held_nonneg (b ∷ bs) p = omega (int_laws, held_nonneg bs p.1)

held-insert : (b : FefoBatch) (bs : List FefoBatch) → held (insert b bs) ≡ held (b ∷ bs)
held-insert b [] = refl
held-insert b (c ∷ cs) = grind (int_laws, held-insert b cs)

held-candidates : (bs : List FefoBatch) → held (sort (select in_stock bs)) ≡ available bs
held-candidates [] = refl
held-candidates (b ∷ bs) =
    grind (int_laws, held-candidates bs, held-insert b (sort (select in_stock bs)))

take_from_totals :
    (bs : List FefoBatch) (r : ℤ)
    → IsStocked bs
    → pos 0 ≤ℤ r
    → (suggested (take_from bs r).0 ≡ min_ℤ r (held bs))
      × ((take_from bs r).1 +ℤ suggested (take_from bs r).0 ≡ r)
unfolding take_from
take_from_totals [] r p h = grind int_laws
take_from_totals (b ∷ bs) r p h =
    grind (int_laws, take_from_totals bs (r -ℤ min_ℤ b.quantity r) p.1, held_nonneg bs p.1)

-- A request of at least one unit is answered, and the suggestion is fully covered exactly when the
-- batches in stock hold the quantity; the quantities suggested add up to the request, or to all that
-- the batches hold where that is less. A request of zero or less is refused.
pub suggest_coverage :
    (batches : List FefoBatch) (requested : ℤ)
    → (pos 1 ≤ℤ requested
        → (result : FefoResult) × (suggest_fefo_batches batches requested ≡ ok result)
          × ((result.fully_covered ≡ true) ↔ (requested ≤ℤ available batches))
          × (suggested result.suggestions ≡ min_ℤ requested (available batches)))
      × (requested ≤ℤ pos 0 → suggest_fefo_batches batches requested ≡ crash)
unfolding suggest_fefo_batches
suggest_coverage batches requested =
    let bs = sort (select in_stock batches) in
    let taken = take_from bs requested in
    (
      λ h. (
        record { suggestions = taken.0; fully_covered = leb_ℤ taken.1 (pos 0) },
        ground arith,
        grind (
          int_laws,
          take_from_totals bs requested (candidates-IsStocked batches),
          held-candidates batches,
        ),
        grind (
          int_laws,
          take_from_totals bs requested (candidates-IsStocked batches),
          held-candidates batches,
        ),
      ),
      λ h. ground arith,
    )

-- A suggestion that is fully covered takes exactly the quantity requested.
pub suggested_covered :
    (batches : List FefoBatch) (requested : ℤ) (result : FefoResult)
    → suggest_fefo_batches batches requested ≡ ok result
    → result.fully_covered ≡ true
    → suggested result.suggestions ≡ requested
unfolding suggest_fefo_batches
suggested_covered batches requested result e c = grind (
  int_laws,
  take_from_totals (sort (select in_stock batches)) requested (candidates-IsStocked batches),
  held_nonneg (sort (select in_stock batches)) (candidates-IsStocked batches),
)

-- A suggestion of one of the batches: its identifier and date, and at least one unit but no more
-- than the batch holds.
abbrev Covers : Suggestion → FefoBatch → Type 0
Covers s b =
    (s.batch_id ≡ b.batch_id)
    × (s.expiry_date ≡ b.expiry_date)
    × (pos 1 ≤ℤ s.quantity)
    × (s.quantity ≤ℤ b.quantity)

abbrev pub Within : Suggestion → List FefoBatch → Type 0
Within s [] = ⊥
Within s (b ∷ bs) = Covers s b ⊎ Within s bs

Within-insert :
    (s : Suggestion) (b : FefoBatch) (bs : List FefoBatch)
    → Within s (insert b bs)
    → Within s (b ∷ bs)
Within-insert s b [] w = w
Within-insert s b (c ∷ cs) w = ground (arith, Within-insert s b cs)

Within-candidates :
    (s : Suggestion) (bs : List FefoBatch) → Within s (sort (select in_stock bs)) → Within s bs
Within-candidates s [] w = w
Within-candidates s (b ∷ bs) w =
    ground (arith, Within-candidates s bs, Within-insert s b (sort (select in_stock bs)))

All-weaken :
    (bs : List FefoBatch) (b : FefoBatch) (ss : List Suggestion)
    → All (λ s. Within s bs) ss
    → All (λ s. Within s (b ∷ bs)) ss
All-weaken bs b [] h = tt
All-weaken bs b (s ∷ ss) h = (inr h.0, All-weaken bs b ss h.1)

take_from-Within :
    (bs : List FefoBatch) (r : ℤ) → IsStocked bs → All (λ s. Within s bs) (take_from bs r).0
unfolding take_from
take_from-Within [] r p = tt
take_from-Within (b ∷ bs) r p =
    let rest = r -ℤ min_ℤ b.quantity r in
    ground (arith, take_from-Within bs rest p.1, All-weaken bs b (take_from bs rest).0)

All-candidates :
    (bs : List FefoBatch) (ss : List Suggestion)
    → All (λ s. Within s (sort (select in_stock bs))) ss
    → All (λ s. Within s bs) ss
All-candidates bs [] h = tt
All-candidates bs (s ∷ ss) h = (Within-candidates s bs h.0, All-candidates bs ss h.1)

-- Every suggestion names a batch of the input with that batch's date, and takes at least one unit
-- and no more than the batch holds.
pub suggest-Within :
    (batches : List FefoBatch) (requested : ℤ) {result : FefoResult}
    → suggest_fefo_batches batches requested ≡ ok result
    → All (λ s. Within s batches) result.suggestions
unfolding suggest_fefo_batches
suggest-Within batches requested e =
    let ss = (take_from (sort (select in_stock batches)) requested).0 in
    ground (
      arith,
      All-candidates batches ss (
          take_from-Within (sort (select in_stock batches)) requested
            (candidates-IsStocked batches)),
    )

-- ===== src/Stock/Fefo.antt =====
-- services/app/src/modules/stock/fefo.ts: which batches an exit takes from, first expired first out.
-- A date is its day number: on the `YYYY-MM-DD` texts of the code the order of texts is that of days.
use estoque_saas.Base.{
  ℕ, ◌≤◌, ◌<◌, ◌≡◌, refl, Bool, true, false, ◌&&◌, List, [], ◌∷◌, arith, ℤ, pos, ◌-ℤ◌, ltb_ℤ, leb_ℤ,
  leb, min_ℤ, if◌then◌else◌, select,
}
use estoque_saas.Shared.Transaction.{Result, ok, crash}
pub mod Order
pub mod Spec

-- FefoBatchInput
pub record FefoBatch : Type 0 where
  pub batch_id : ℕ
  pub expiry_date : ℕ
  pub quantity : ℤ

-- FefoSuggestionItem
pub record Suggestion : Type 0 where
  pub batch_id : ℕ
  pub expiry_date : ℕ
  pub quantity : ℤ

-- FefoSuggestionResult
pub record FefoResult : Type 0 where
  pub suggestions : List Suggestion
  pub fully_covered : Bool

-- `.sort((a, b) => a.expiryDate.localeCompare(b.expiryDate))`, which is stable: an element is put
-- before the first one that does not expire before it.
abbrev pub insert : FefoBatch → List FefoBatch → List FefoBatch
insert b [] = b ∷ []
insert b (c ∷ cs) = if leb b.expiry_date c.expiry_date then b ∷ c ∷ cs else c ∷ insert b cs

abbrev pub sort : List FefoBatch → List FefoBatch
sort [] = []
sort (b ∷ bs) = insert b (sort bs)

abbrev pub in_stock : FefoBatch → Bool
in_stock b = ltb_ℤ (pos 0) b.quantity

abbrev pub suggestion : FefoBatch → ℤ → Suggestion
suggestion b take = record { batch_id = b.batch_id; expiry_date = b.expiry_date; quantity = take }

-- The loop: the suggestions, and what remains to be taken.
unfoldable pub take_from : List FefoBatch → ℤ → List Suggestion × ℤ
take_from [] remaining = ([], remaining)
take_from (b ∷ bs) remaining =
    let take = min_ℤ b.quantity remaining in
    let rest = take_from bs (remaining -ℤ take) in
    if leb_ℤ remaining (pos 0) then ([], remaining) else (suggestion b take ∷ rest.0, rest.1)

-- A request of zero or less is an `Error`.
unfoldable pub suggest_fefo_batches : List FefoBatch → ℤ → Result FefoResult
suggest_fefo_batches batches requested =
    let taken = take_from (sort (select in_stock batches)) requested in
    if leb_ℤ requested (pos 0)
    then crash
    else ok (record { suggestions = taken.0; fully_covered = leb_ℤ taken.1 (pos 0) })

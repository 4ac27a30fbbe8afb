-- ===== src/Stock/Resolve.antt =====
-- services/app/src/modules/stock/resolve-batches.ts: the lines of an exit, one for each batch.
use estoque_saas.Base.{
  ℕ, ◌≡◌, refl, Bool, true, false, ◌&&◌, Option, none, some, List, [], ◌∷◌, map, arith, ℤ, pos,
  ◌+ℤ◌, ltb_ℤ, ◌==◌, if◌then◌else◌, select,
}
use estoque_saas.Shared.Errors.{conflict}
use estoque_saas.Shared.Transaction.{Action, Result, ok, err, crash, ◌>>=◌, pure, throw, gets, lift}
use estoque_saas.Stock.Rows.{Batch}
use estoque_saas.Stock.Db.{Db, find_batch}
use estoque_saas.Stock.Balance.{get_current_stock}
use estoque_saas.Stock.Fefo.{FefoBatch, Suggestion, FefoResult, sort, suggest_fefo_batches}
pub mod Totals
pub mod Cover

-- ResolvedExitLine
pub record ExitLine : Type 0 where
  pub batch_id : Option ℕ
  pub quantity : ℤ
  pub fefo_applied : Bool
  pub fefo_overridden : Bool

abbrev pub line : Option ℕ → ℤ → Bool → Bool → ExitLine
line batch q applied overridden = record {
  batch_id = batch;
  quantity = q;
  fefo_applied = applied;
  fefo_overridden = overridden;
}

-- The operator chose a batch: only that batch's own quantity is looked at.
abbrev pub explicit_lines : ℕ → ℤ → Option Batch → Result (List ExitLine)
explicit_lines id quantity none = err conflict
explicit_lines id quantity (some b) =
    if ltb_ℤ b.quantity quantity then err conflict else ok (line (some id) quantity false true ∷ [])

-- Not perishable: the aggregate stock of the product in the store.
abbrev pub aggregate_lines : ℤ → ℤ → Result (List ExitLine)
aggregate_lines quantity current =
    if ltb_ℤ current quantity then err conflict else ok (line none quantity false false ∷ [])

abbrev pub to_fefo : Batch → FefoBatch
to_fefo b = record { batch_id = b.id; expiry_date = b.expiry_date; quantity = b.quantity }

-- `tx.batch.findMany({ where: { productId, storeId, quantity: { gt: 0 } }, orderBy: expiryDate })`
abbrev pub candidates : ℕ → ℕ → List Batch → List FefoBatch
candidates product store bs = sort (
    map to_fefo (
      select (λ b. (b.product_id == product) && ((b.store_id == store) && ltb_ℤ (pos 0) b.quantity))
        bs))

abbrev pub to_line : Suggestion → ExitLine
to_line s = line (some s.batch_id) s.quantity true false

abbrev pub covered_lines : FefoResult → Result (List ExitLine)
covered_lines r = if r.fully_covered then ok (map to_line r.suggestions) else err conflict

abbrev pub fefo_lines : Result FefoResult → Result (List ExitLine)
fefo_lines (ok r) = covered_lines r
fefo_lines (err e) = err e
fefo_lines crash = crash

-- `resolveExitLines`, on the batches and the current stock that it reads.
unfoldable pub resolve : ℕ → ℕ → ℤ → Bool → Option ℕ → ℤ → Db → Result (List ExitLine)
resolve product store quantity perishable (some batch) current db =
    explicit_lines batch quantity (find_batch batch db)
resolve product store quantity false none current db = aggregate_lines quantity current
resolve product store quantity true none current db =
    fefo_lines (suggest_fefo_batches (candidates product store db.batches) quantity)

unfoldable pub resolve_exit_lines : ℕ → ℕ → ℤ → Bool → Option ℕ → Action Db (List ExitLine)
unfolding ◌>>=◌ get_current_stock resolve
resolve_exit_lines product store quantity perishable batch = do
  current ← get_current_stock product store
  db ← gets (λ db. db)
  lift (resolve product store quantity perishable batch current db)

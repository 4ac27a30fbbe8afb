-- ===== src/Stock/Exits.antt =====
-- services/app/src/modules/stock/exits.ts: exits by loss or adjustment.
use estoque_saas.Base.{
  ℕ, Bool, true, false, ◌&&◌, not, Option, none, some, List, [], ◌∷◌, ◌++◌, ℤ, pos, neg, Text,
  truthy,
}
use estoque_saas.Shared.Errors.{validation_error}
use estoque_saas.Shared.Transaction.{
  Action, ◌>>=◌, ◌>>◌, pure, gets, or_throw, throw_if, with_tenant,
}
use estoque_saas.Stock.Rows.{
  Product, MovementType, Movement, saida_perda, ajuste, stock_movement, create,
}
use estoque_saas.Stock.Db.{Db, find_product, lock_stock_row, increment_batch, record_audit}
use estoque_saas.Stock.Balance.{post_movement}
use estoque_saas.Stock.Resolve.{ExitLine, resolve_exit_lines}
pub mod Stock

pub data ExitType : Type 0 where
  perda ajuste_manual : ExitType

abbrev pub movement_type : ExitType → MovementType
movement_type perda = saida_perda
movement_type ajuste_manual = ajuste

pub record StockExitInput : Type 0 where
  pub product_id : ℕ
  pub store_id : ℕ
  pub quantity : ℤ
  pub kind : ExitType
  pub reason : Option Text
  pub batch_id : Option ℕ

pub record StockExitResult : Type 0 where
  pub movement_ids : List ℕ
  pub balance_after : ℤ

-- `if (line.batchId) tx.batch.update(... decrement ...)`
pub debit_batch : ExitLine → Action Db (Unit {0})
debit_batch l = elim l.batch_id [ none ↦ pure tt | some id ↦ increment_batch id (neg l.quantity) ]

abbrev exit_movement : ℕ → StockExitInput → ExitLine → Movement
exit_movement user input l = record {
  id = 0;
  product_id = input.product_id;
  store_id = input.store_id;
  batch_id = l.batch_id;
  kind = movement_type input.kind;
  quantity = neg l.quantity;
  unit_cost_cents = none;
  reference_id = none;
  created_by = user;
  metadata = some (record {
    reason = input.reason;
    fefo_applied = l.fefo_applied;
    fefo_overridden = l.fefo_overridden;
  });
  balance_after = pos 0;
  created_at = 0;
}

-- The body of the loop: the identifier of the movement, and the balance after it.
pub exit_line : ℕ → StockExitInput → ExitLine → Action Db (ℕ × ℤ)
exit_line user input l = do
  posted ← post_movement (exit_movement user input l)
  debit_batch l
  record_audit (some user) stock_movement posted.0 create
  pure posted

pub exit_lines : ℕ → StockExitInput → List ExitLine → List ℕ → ℤ → Action Db StockExitResult
exit_lines user input [] ids balance_after =
    pure (record { movement_ids = ids; balance_after = balance_after })
exit_lines user input (l ∷ ls) ids balance_after = do
  posted ← exit_line user input l
  exit_lines user input ls (ids ++ (posted.0 ∷ [])) posted.1

abbrev pub needs_reason : ExitType → Bool
needs_reason perda = true
needs_reason ajuste_manual = false

-- The callback of `withTenant`.
pub exit_transaction : ℕ → StockExitInput → Action Db StockExitResult
exit_transaction user input = do
  lock_stock_row input.product_id input.store_id
  found ← gets (find_product input.product_id)
  product ← or_throw found validation_error
  lines ←
      resolve_exit_lines input.product_id input.store_id input.quantity product.is_perishable
        input.batch_id
  exit_lines user input lines [] (pos 0)

unfoldable pub create_stock_exit : ℕ → StockExitInput → Action Db StockExitResult
unfolding ◌>>=◌ throw_if with_tenant exit_transaction exit_lines exit_line debit_batch
create_stock_exit user input = do
  throw_if (needs_reason input.kind && not (truthy input.reason)) validation_error
  with_tenant (exit_transaction user input)

-- ===== src/Stock/Entries.antt =====
-- services/app/src/modules/stock/entries.ts: manual entries.
use estoque_saas.Base.{
  ℕ, ◌≡◌, refl, Bool, true, false, ◌&&◌, Option, none, some, List, [], ◌∷◌, arith, ℤ, pos, ◌+ℤ◌,
  Text, truthy, is_some, if◌then◌else◌,
}
use estoque_saas.Shared.Transaction.{Action, Result, ok, ◌>>=◌, ◌>>◌, pure, with_tenant}
use estoque_saas.Stock.Rows.{Batch, Movement, entrada_manual, stock_movement, create}
use estoque_saas.Stock.Db.{Db, lock_stock_row, create_batch, record_audit}
use estoque_saas.Stock.Balance.{post_movement}
pub mod Stock

pub record ManualEntryInput : Type 0 where
  pub product_id : ℕ
  pub store_id : ℕ
  pub quantity : ℤ
  pub unit_cost_cents : Option ℤ
  pub batch_number : Option Text
  pub expiry_date : Option ℕ

pub record ManualEntryResult : Type 0 where
  pub movement_id : ℕ
  pub balance_after : ℤ
  pub batch_id : Option ℕ

-- The batch of an entry with a batch number that is not empty and an expiry date.
unfoldable pub entry_batch : ℕ → ℕ → ℤ → Option Text → Option ℕ → Action Db (Option ℕ)
unfolding create_batch ◌>>=◌
entry_batch product store quantity (some (c ∷ cs)) (some expiry) = do
  id ← create_batch (record {
    id = 0;
    product_id = product;
    store_id = store;
    batch_number = c ∷ cs;
    expiry_date = expiry;
    quantity = quantity;
  })
  pure (some id)
entry_batch product store quantity _ _ = pure none

abbrev pub entry_movement : ℕ → ManualEntryInput → Option ℕ → Movement
entry_movement user input batch = record {
  id = 0;
  product_id = input.product_id;
  store_id = input.store_id;
  batch_id = batch;
  kind = entrada_manual;
  quantity = input.quantity;
  unit_cost_cents = input.unit_cost_cents;
  reference_id = none;
  created_by = user;
  metadata = none;
  balance_after = pos 0;
  created_at = 0;
}

unfoldable pub create_manual_entry : ℕ → ManualEntryInput → Action Db ManualEntryResult
unfolding ◌>>=◌ with_tenant
create_manual_entry user input = with_tenant (do
  lock_stock_row input.product_id input.store_id
  batch ←
      entry_batch input.product_id input.store_id input.quantity input.batch_number
        input.expiry_date
  posted ← post_movement (entry_movement user input batch)
  record_audit (some user) stock_movement posted.0 create
  pure (record { movement_id = posted.0; balance_after = posted.1; batch_id = batch }))

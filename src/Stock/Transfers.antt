-- ===== src/Stock/Transfers.antt =====
-- services/app/src/modules/stock/transfers.ts: transfers between two stores.
use estoque_saas.Base.{
  ℕ, Bool, true, false, ◌&&◌, Option, none, some, List, [], ◌∷◌, ℤ, pos, neg, Text, ltb, ◌==◌,
  text_eq, if◌then◌else◌, find,
}
use estoque_saas.Shared.Errors.{validation_error}
use estoque_saas.Shared.Transaction.{
  Action, ◌>>=◌, ◌>>◌, pure, gets, or_throw, or_fail, throw_if, with_tenant,
}
use estoque_saas.Stock.Rows.{
  Product, Batch, Movement, transferencia_saida, transferencia_entrada, transfer, create,
  MovementType,
}
use estoque_saas.Stock.Db.{
  Db, find_product, find_batch, lock_stock_row, create_batch, increment_batch, record_audit,
  create_transfer_row, create_transfer_item,
}
use estoque_saas.Stock.Balance.{post_movement}
use estoque_saas.Stock.Resolve.{ExitLine, resolve_exit_lines}
pub mod Stock
pub mod Locks

pub record TransferItemInput : Type 0 where
  pub product_id : ℕ
  pub batch_id : Option ℕ
  pub quantity : ℤ

pub record TransferInput : Type 0 where
  pub origin_store_id : ℕ
  pub destination_store_id : ℕ
  pub items : List TransferItemInput

-- What the loops of a transfer read from around them.
pub record Route : Type 0 where
  pub user : ℕ
  pub transfer_id : ℕ
  pub origin : ℕ
  pub destination : ℕ

-- Both stores' locks, the lower identifier first.
unfoldable pub lock_both : ℕ → ℕ → ℕ → Action Db (Unit {0})
lock_both product origin destination = do
  lock_stock_row product (if ltb origin destination then origin else destination)
  lock_stock_row product (if ltb origin destination then destination else origin)

abbrev transfer_movement : Route → MovementType → ℕ → ℕ → Option ℕ → ℤ → Movement
transfer_movement r kind product store batch quantity = record {
  id = 0;
  product_id = product;
  store_id = store;
  batch_id = batch;
  kind = kind;
  quantity = quantity;
  unit_cost_cents = none;
  reference_id = some r.transfer_id;
  created_by = r.user;
  metadata = none;
  balance_after = pos 0;
  created_at = 0;
}

-- The batch of the same number in the destination store.
abbrev counterpart : ℕ → ℕ → Batch → Db → Option Batch
counterpart product destination origin db =
    find
      (λ b.
        (b.product_id == product)
        && ((b.store_id == destination) && text_eq b.batch_number origin.batch_number))
      db.batches

pub credit_batch : ℕ → ℕ → Batch → ℤ → Option Batch → Action Db (Option ℕ)
credit_batch product destination origin quantity (some existing) = do
  increment_batch existing.id quantity
  pure (some existing.id)
credit_batch product destination origin quantity none = do
  id ← create_batch (record {
    id = 0;
    product_id = product;
    store_id = destination;
    batch_number = origin.batch_number;
    expiry_date = origin.expiry_date;
    quantity = quantity;
  })
  pure (some id)

-- The batch moves: it is debited, and its counterpart is credited or created.
pub move_batch : ℕ → ℕ → ℤ → Option ℕ → Action Db (Option ℕ)
move_batch product destination quantity none = pure none
move_batch product destination quantity (some id) = do
  found ← gets (find_batch id)
  origin ← or_fail found
  increment_batch id (neg quantity)
  existing ← gets (counterpart product destination origin)
  credit_batch product destination origin quantity existing

pub transfer_line : Route → ℕ → ExitLine → Action Db (Unit {0})
transfer_line r product l = do
  post_movement
      (transfer_movement r transferencia_saida product r.origin l.batch_id (neg l.quantity))
  batch ← move_batch product r.destination l.quantity l.batch_id
  post_movement (transfer_movement r transferencia_entrada product r.destination batch l.quantity)
  create_transfer_item (record {
    transfer_id = r.transfer_id;
    product_id = product;
    batch_id = l.batch_id;
    quantity = l.quantity;
  })

pub transfer_lines : Route → ℕ → List ExitLine → Action Db (Unit {0})
transfer_lines r product [] = pure tt
transfer_lines r product (l ∷ ls) = do transfer_line r product l; transfer_lines r product ls

-- `transferOneItem`
pub transfer_one_item : Route → TransferItemInput → Action Db (Unit {0})
transfer_one_item r item = do
  lock_both item.product_id r.origin r.destination
  found ← gets (find_product item.product_id)
  product ← or_throw found validation_error
  lines ←
      resolve_exit_lines item.product_id r.origin item.quantity product.is_perishable item.batch_id
  transfer_lines r item.product_id lines

pub transfer_items : Route → List TransferItemInput → Action Db (Unit {0})
transfer_items r [] = pure tt
transfer_items r (i ∷ is) = do transfer_one_item r i; transfer_items r is

abbrev route : ℕ → TransferInput → ℕ → Route
route user input id = record {
  user = user;
  transfer_id = id;
  origin = input.origin_store_id;
  destination = input.destination_store_id;
}

pub transfer_transaction : ℕ → TransferInput → Action Db ℕ
transfer_transaction user input = do
  id ← create_transfer_row (record {
    id = 0;
    origin_store_id = input.origin_store_id;
    destination_store_id = input.destination_store_id;
    created_by = user;
  })
  transfer_items (route user input id) input.items
  record_audit (some user) transfer id create
  pure id

abbrev pub is_empty : {A : Type 0} → List A → Bool
is_empty [] = true
is_empty (x ∷ xs) = false

unfoldable pub create_transfer : ℕ → TransferInput → Action Db ℕ
unfolding ◌>>=◌ throw_if with_tenant transfer_transaction transfer_items transfer_one_item
    transfer_lines transfer_line move_batch credit_batch
create_transfer user input = do
  throw_if (input.origin_store_id == input.destination_store_id) validation_error
  throw_if (is_empty input.items) validation_error
  with_tenant (transfer_transaction user input)

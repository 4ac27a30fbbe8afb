-- ===== src/Sales/Create.antt =====
-- services/app/src/modules/sales/sales.ts: the date of a sale, and its creation.
use estoque_saas.Base.{
  ℕ, Bool, true, false, ◌&&◌, ◌||◌, Option, none, some, List, [], ◌∷◌, ℤ, pos, ◌+ℤ◌, ◌*ℤ◌, neg,
  Text, text_eq, truthy, if◌then◌else◌, ltb, ◌==◌,
}
use estoque_saas.Shared.Errors.{validation_error}
use estoque_saas.Shared.Transaction.{
  Action, Result, ok, err, ◌>>=◌, ◌>>◌, pure, gets, lift, or_throw, throw_if, with_tenant,
}
use estoque_saas.Stock.Rows.{Movement, saida_venda, sale, create}
use estoque_saas.Stock.Db.{
  Db, find_product, lock_stock_row, increment_batch, record_audit, create_sale, create_sale_item,
}
use estoque_saas.Stock.Balance.{post_movement}
use estoque_saas.Stock.Resolve.{ExitLine, resolve_exit_lines}
use estoque_saas.Stock.Exits.{debit_batch}
use estoque_saas.Stock.Transfers.{is_empty}
pub mod Stock
pub mod Date

pub record SaleItemInput : Type 0 where
  pub product_id : ℕ
  pub batch_id : Option ℕ
  pub quantity : ℤ
  pub unit_price_cents : ℤ

pub record SaleInput : Type 0 where
  pub store_id : ℕ
  pub customer_id : Option ℕ
  pub payment_method_label : Option Text
  pub sale_date : Option Text
  pub items : List SaleItemInput

pub record SaleResult : Type 0 where
  pub sale_id : ℕ
  pub total_amount_cents : ℤ

-- `a < b` on texts: the order of their characters, a proper prefix first.
abbrev pub text_lt : Text → Text → Bool
text_lt [] [] = false
text_lt [] (y ∷ ys) = true
text_lt (x ∷ xs) [] = false
text_lt (x ∷ xs) (y ∷ ys) = ltb x y || ((x == y) && text_lt xs ys)

-- The clock: the present instant, the present day in the time zone of sales, and JavaScript's
-- reading of `${day}T12:00:00-04:00`, which is `none` for an invalid date.
pub record SaleClock : Type 0 where
  pub now : ℕ
  pub today : Text
  pub noon_of : Text → Option ℕ

abbrev pub past_date : Option ℕ → Result ℕ
past_date none = err validation_error
past_date (some instant) = ok instant

abbrev pub dated : SaleClock → Text → Result ℕ
dated c day =
    if text_lt c.today day
    then err validation_error
    else if text_eq day c.today
    then ok c.now
    else past_date (c.noon_of day)

pub resolve_sale_date : SaleClock → Option Text → Result ℕ
resolve_sale_date c none = ok c.now
resolve_sale_date c (some []) = ok c.now
resolve_sale_date c (some (x ∷ xs)) = dated c (x ∷ xs)

-- `input.items.reduce((sum, i) => sum + i.quantity * i.unitPriceCents, 0)`
pub total_from : ℤ → List SaleItemInput → ℤ
total_from sum [] = sum
total_from sum (i ∷ is) = total_from (sum +ℤ i.quantity *ℤ i.unit_price_cents) is

-- What the loops of a sale read from around them.
pub record Till : Type 0 where
  pub user : ℕ
  pub sale_id : ℕ
  pub store : ℕ

abbrev sale_movement : Till → SaleItemInput → ExitLine → Movement
sale_movement t item l = record {
  id = 0;
  product_id = item.product_id;
  store_id = t.store;
  batch_id = l.batch_id;
  kind = saida_venda;
  quantity = neg l.quantity;
  unit_cost_cents = none;
  reference_id = some t.sale_id;
  created_by = t.user;
  metadata = some (record {
    reason = none;
    fefo_applied = l.fefo_applied;
    fefo_overridden = l.fefo_overridden;
  });
  balance_after = pos 0;
  created_at = 0;
}

pub sale_line : Till → SaleItemInput → ExitLine → Action Db (Unit {0})
sale_line t item l = do
  post_movement (sale_movement t item l)
  debit_batch l
  create_sale_item (record {
    sale_id = t.sale_id;
    product_id = item.product_id;
    batch_id = l.batch_id;
    quantity = l.quantity;
    unit_price_cents = item.unit_price_cents;
  })

pub sale_lines : Till → SaleItemInput → List ExitLine → Action Db (Unit {0})
sale_lines t item [] = pure tt
sale_lines t item (l ∷ ls) = do sale_line t item l; sale_lines t item ls

pub sale_item : Till → SaleItemInput → Action Db (Unit {0})
sale_item t item = do
  lock_stock_row item.product_id t.store
  found ← gets (find_product item.product_id)
  product ← or_throw found validation_error
  lines ←
      resolve_exit_lines item.product_id t.store item.quantity product.is_perishable item.batch_id
  sale_lines t item lines

pub sale_items : Till → List SaleItemInput → Action Db (Unit {0})
sale_items t [] = pure tt
sale_items t (i ∷ is) = do sale_item t i; sale_items t is

abbrev till : ℕ → SaleInput → ℕ → Till
till user input id = record { user = user; sale_id = id; store = input.store_id }

pub sale_transaction : ℕ → SaleInput → ℕ → Action Db SaleResult
sale_transaction user input sold_at = do
  id ← create_sale (record {
    id = 0;
    store_id = input.store_id;
    customer_id = input.customer_id;
    seller_id = user;
    total_amount_cents = total_from (pos 0) input.items;
    payment_method_label = input.payment_method_label;
    created_at = sold_at;
  })
  sale_items (till user input id) input.items
  record_audit (some user) sale id create
  pure (record { sale_id = id; total_amount_cents = total_from (pos 0) input.items })

unfoldable pub register_sale : SaleClock → ℕ → SaleInput → Action Db SaleResult
unfolding ◌>>=◌ throw_if with_tenant resolve_sale_date sale_transaction sale_items sale_item
    sale_lines sale_line total_from
register_sale c user input = do
  throw_if (is_empty input.items) validation_error
  sold_at ← lift (resolve_sale_date c input.sale_date)
  with_tenant (sale_transaction user input sold_at)

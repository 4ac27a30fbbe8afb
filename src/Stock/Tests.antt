-- ===== src/Stock/Tests.antt =====
-- Runs of the stock modules on a small shop, and instances of their theorems there.
use estoque_saas.Base.{
  ◌≡◌, ◌≤◌, ◌↔◌, refl, true, false, none, some, List, [], ◌∷◌, pos, neg, min_ℤ, ◌≤ℤ◌, ◌-ℤ◌,
}
use estoque_saas.Shared.Transaction.{ok, crash}
use estoque_saas.Stock.Rows.{Product}
use estoque_saas.Stock.Db.{Db}
use estoque_saas.Stock.Balance.{stock_at, current_stock, get_current_stock_for_products}
use estoque_saas.Stock.Balance.Batched.{stock_in, stock_in-get_current_stock_for_products}
use estoque_saas.Stock.Balance.Ledger.{IsConsistent, at}
use estoque_saas.Stock.Balance.Posts.{Outcome}
use estoque_saas.Stock.Fefo.{FefoBatch, FefoResult, suggest_fefo_batches, take_from}
use estoque_saas.Stock.Fefo.Order.{available_until}
use estoque_saas.Stock.Fefo.Spec.{
  suggested_until, available, suggested, suggest_earliest_first, suggest_coverage,
}
use estoque_saas.Stock.Resolve.{resolve, line}
use estoque_saas.Stock.Entries.{ManualEntryInput, create_manual_entry}
use estoque_saas.Stock.Entries.Stock.{create_manual_entry_lem}
use estoque_saas.Stock.Exits.{StockExitInput, create_stock_exit, perda}
use estoque_saas.Stock.Exits.Stock.{create_stock_exit-Outcome}
use estoque_saas.Stock.Transfers.{TransferInput, create_transfer, lock_both}
use estoque_saas.Stock.Transfers.Stock.{create_transfer-Outcome, shipped_all}
use estoque_saas.Stock.Transfers.Locks.{lock_both_comm}

abbrev pub rice : Product
rice = record {
  id = 1;
  sku = none;
  name = 65 ∷ [];
  category_id = none;
  unit_of_measure = 85 ∷ [];
  barcode = some (55 ∷ []);
  supplier_id = none;
  is_perishable = false;
  min_stock_global = pos 2;
  cost_price_cents = pos 100;
  sale_price_cents = pos 150;
  deleted_at = none;
}

abbrev pub empty_shop : Db
empty_shop = record {
  products = rice ∷ [];
  batches = [];
  movements = [];
  sales = [];
  sale_items = [];
  transfers = [];
  transfer_items = [];
  nfe_imports = [];
  nfe_items = [];
  suppliers = [];
  categories = [];
  audits = [];
  locks = [];
  next_id = 100;
  clock = 5;
}

pub empty_shop-IsConsistent : IsConsistent empty_shop.clock empty_shop.movements
unfolding stock_at
empty_shop-IsConsistent = record { past = tt; balanced = λ _ _. refl }

abbrev bag : ManualEntryInput
bag = record {
  product_id = 1;
  store_id = 1;
  quantity = pos 10;
  unit_cost_cents = none;
  batch_number = none;
  expiry_date = none;
}

-- The shop with ten units in its first store.
abbrev pub shop : Db
shop = (create_manual_entry 7 bag empty_shop).1

pub shop-IsConsistent : IsConsistent shop.clock shop.movements
shop-IsConsistent =
    let entered = (create_manual_entry_lem 7 bag empty_shop empty_shop-IsConsistent).1 refl in
    entered.2.consistent

abbrev crates : List FefoBatch
crates =
    record { batch_id = 1; expiry_date = 20; quantity = pos 4 }
    ∷ record { batch_id = 2; expiry_date = 10; quantity = pos 3 }
    ∷ []

abbrev picked : FefoResult
picked = record {
  suggestions =
      record { batch_id = 2; expiry_date = 10; quantity = pos 3 }
      ∷ record { batch_id = 1; expiry_date = 20; quantity = pos 2 }
      ∷ [];
  fully_covered = true;
}

picks : suggest_fefo_batches crates (pos 5) ≡ ok picked
unfolding suggest_fefo_batches take_from ◌-ℤ◌
picks = refl

suggest_earliest_first_example :
    suggested_until 10 picked.suggestions ≡ min_ℤ (pos 5) (available_until 10 crates)
suggest_earliest_first_example = suggest_earliest_first crates (pos 5) 10 picks

suggest_coverage_example :
    (pos 1 ≤ℤ pos 5
      → (result : FefoResult) × (suggest_fefo_batches crates (pos 5) ≡ ok result)
        × ((result.fully_covered ≡ true) ↔ (pos 5 ≤ℤ available crates))
        × (suggested result.suggestions ≡ min_ℤ (pos 5) (available crates)))
    × (pos 5 ≤ℤ pos 0 → suggest_fefo_batches crates (pos 5) ≡ crash)
suggest_coverage_example = suggest_coverage crates (pos 5)

resolves : resolve 1 1 (pos 4) false none (pos 10) shop ≡ ok (line none (pos 4) false false ∷ [])
unfolding resolve
resolves = refl

abbrev broken : StockExitInput
broken = record {
  product_id = 1;
  store_id = 1;
  quantity = pos 3;
  kind = perda;
  reason = none;
  batch_id = none;
}

create_stock_exit-Outcome_example :
    Outcome shop (at 1 1 (neg (pos 3))) (create_stock_exit 7 broken shop)
create_stock_exit-Outcome_example = create_stock_exit-Outcome 7 broken shop shop-IsConsistent

abbrev van : TransferInput
van = record {
  origin_store_id = 1;
  destination_store_id = 2;
  items = record { product_id = 1; batch_id = none; quantity = pos 2 } ∷ [];
}

create_transfer-Outcome_example :
    Outcome shop
      (shipped_all 1 2 (record { product_id = 1; batch_id = none; quantity = pos 2 } ∷ []))
      (create_transfer 7 van shop)
create_transfer-Outcome_example = create_transfer-Outcome 7 van shop shop-IsConsistent

lock_both_comm_example :
    (lock_both 1 2 3 shop ≡ lock_both 1 3 2 shop)
    × (2 ≤ 3 → (lock_both 1 2 3 shop).1.locks ≡ (1, 3) ∷ (1, 2) ∷ shop.locks)
    × ((lock_both 1 2 3 shop).0 ≡ ok tt)
lock_both_comm_example = lock_both_comm 1 2 3 shop

abbrev dated_bag : ManualEntryInput
dated_bag = record bag { batch_number = some (76 ∷ []); expiry_date = some 30 }

stock_in-get_current_stock_for_products_example :
    stock_in 1 (get_current_stock_for_products (2 ∷ 1 ∷ []) none shop.movements)
    ≡ current_stock 1 none shop.movements
stock_in-get_current_stock_for_products_example =
    stock_in-get_current_stock_for_products (2 ∷ 1 ∷ []) none shop.movements 1 refl

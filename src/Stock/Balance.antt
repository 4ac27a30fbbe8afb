-- ===== src/Stock/Balance.antt =====
-- services/app/src/modules/stock/balance.ts: the current stock, read from the latest movements.
use estoque_saas.Base.{
  ℕ, ◌≡◌, Bool, true, false, ◌&&◌, Option, none, some, List, [], ◌∷◌, map, ℤ, pos, ◌+ℤ◌, ltb, ◌==◌,
  if◌then◌else◌, select, sum_ℤ, mem_nat,
}
use estoque_saas.Shared.Transaction.{Action, ◌>>=◌, pure, gets}
use estoque_saas.Stock.Rows.{Movement}
use estoque_saas.Stock.Db.{Db, create_movement}
pub mod Ledger
pub mod Posts
pub mod Batched

-- `WHERE product_id = ... AND store_id = ...`
abbrev pub is_on : ℕ → ℕ → Movement → Bool
is_on product store m = (m.product_id == product) && (m.store_id == store)

abbrev newer : Movement → Option Movement → Option Movement
newer m none = some m
newer m (some n) = if ltb m.created_at n.created_at then some n else some m

-- The row that `DISTINCT ON (store_id) ... ORDER BY store_id, created_at DESC` keeps of a store.
pub latest : ℕ → ℕ → List Movement → Option Movement
latest product store [] = none
latest product store (m ∷ ms) =
    let rest = latest product store ms in if is_on product store m then newer m rest else rest

-- `reduce((sum, r) => sum + r.balance_after, 0)` over the one row of a store, or over none.
pub balance : Option Movement → ℤ
balance none = pos 0
balance (some m) = m.balance_after

unfoldable pub stock_at : ℕ → ℕ → List Movement → ℤ
unfolding latest balance
stock_at product store ms = balance (latest product store ms)

-- The stores of a product's movements, each once.
unfoldable pub stores_of : ℕ → List Movement → List ℕ
stores_of product [] = []
stores_of product (m ∷ ms) =
    let rest = stores_of product ms in
    if (m.product_id == product) && (if mem_nat m.store_id rest then false else true)
    then m.store_id ∷ rest
    else rest

-- `getCurrentStock`: of one store, or over all the stores.
unfoldable pub current_stock : ℕ → Option ℕ → List Movement → ℤ
unfolding stock_at stores_of
current_stock product (some store) ms = stock_at product store ms
current_stock product none ms = sum_ℤ (map (λ s. stock_at product s ms) (stores_of product ms))

unfoldable pub get_current_stock : ℕ → ℕ → Action Db ℤ
unfolding stock_at gets
get_current_stock product store = gets (λ db. stock_at product store db.movements)

-- `nextBalanceAfter`
unfoldable pub next_balance_after : ℕ → ℕ → ℤ → Action Db ℤ
unfolding get_current_stock ◌>>=◌
next_balance_after product store delta = do
  current ← get_current_stock product store
  pure (current +ℤ delta)

-- A movement with the balance that `nextBalanceAfter` gives, as every operation creates one; the
-- identifier of the movement and the balance.
unfoldable pub post_movement : Movement → Action Db (ℕ × ℤ)
unfolding next_balance_after create_movement ◌>>=◌
post_movement m = do
  balance_after ← next_balance_after m.product_id m.store_id m.quantity
  id ← create_movement (record m { balance_after = balance_after })
  pure (id, balance_after)

-- The pairs of product and store that `DISTINCT ON (product_id, store_id)` finds among the movements
-- that a condition keeps.
abbrev pub mem_pair : ℕ → ℕ → List (ℕ × ℕ) → Bool
mem_pair p s [] = false
mem_pair p s ((q, t) ∷ rest) = if (q == p) && (t == s) then true else mem_pair p s rest

pub pairs_of : (Movement → Bool) → List Movement → List (ℕ × ℕ)
pairs_of keep [] = []
pairs_of keep (m ∷ ms) =
    let rest = pairs_of keep ms in
    if keep m && (if mem_pair m.product_id m.store_id rest then false else true)
    then (m.product_id, m.store_id) ∷ rest
    else rest

-- A JavaScript `Map`, as an association list: `get`, and `set` of the sum.
abbrev pub get : ℕ → List (ℕ × ℤ) → Option ℤ
get k [] = none
get k ((j, v) ∷ rest) = if j == k then some v else get k rest

abbrev pub set_sum : ℕ → ℤ → List (ℕ × ℤ) → List (ℕ × ℤ)
set_sum k v [] = (k, pos 0 +ℤ v) ∷ []
set_sum k v ((j, w) ∷ rest) = if j == k then (j, w +ℤ v) ∷ rest else (j, w) ∷ set_sum k v rest

-- The loop over the rows.
pub sum_rows : List (ℕ × ℤ) → List (ℕ × ℤ) → List (ℕ × ℤ)
sum_rows [] result = result
sum_rows ((p, b) ∷ rows) result = sum_rows rows (set_sum p b result)

abbrev pub wanted : List ℕ → Option ℕ → Movement → Bool
wanted ids none m = mem_nat m.product_id ids
wanted ids (some store) m = mem_nat m.product_id ids && (m.store_id == store)

-- `getCurrentStockForProducts`: one query for all the products, summed by product.
unfoldable pub get_current_stock_for_products : List ℕ → Option ℕ → List Movement → List (ℕ × ℤ)
unfolding pairs_of sum_rows
get_current_stock_for_products [] store ms = []
get_current_stock_for_products (id ∷ ids) store ms =
    sum_rows
      (map (λ (pair : ℕ × ℕ). (pair.0, stock_at pair.0 pair.1 ms))
        (pairs_of (wanted (id ∷ ids) store) ms))
      []

-- ===== src/Sales/Create/Stock.antt =====
-- What a sale does to the stock.
use estoque_saas.Base.{ℕ, ◌≡◌, refl, List, [], ◌∷◌, pos, ◌+ℤ◌, neg}
use estoque_saas.Shared.Errors.{validation_error}
use estoque_saas.Shared.Transaction.{
  Action, Result, ok, err, crash, gets, lift, or_throw, with_tenant, ◌>>=◌,
}
use estoque_saas.Stock.Rows.{Sale, SaleItem}
use estoque_saas.Stock.Db.{Db, record_audit, lock_stock_row, create_sale, create_sale_item}
use estoque_saas.Stock.Balance.{post_movement}
use estoque_saas.Stock.Balance.Ledger.{IsConsistent, Change, at}
use estoque_saas.Stock.Balance.Posts.{
  Posts, Any, unchanged, Outcome, bind-Posts, then-Posts, first-Posts, quiet-Posts, pure-Posts,
  with_tenant-Outcome, post_movement-Posts, record_audit-Posts, lock_stock_row-Posts, gets-Posts,
  or_throw-Posts, same-Posts, at-neg, at-neg_zero, throw_if-Outcome,
}
use estoque_saas.Stock.Resolve.{ExitLine, resolve_exit_lines}
use estoque_saas.Stock.Resolve.Totals.{total}
use estoque_saas.Stock.Resolve.Cover.{resolve_exit_lines-Posts}
use estoque_saas.Stock.Exits.{debit_batch}
use estoque_saas.Stock.Exits.Stock.{debit_batch-Posts}
use estoque_saas.Stock.Transfers.{is_empty}
use estoque_saas.Sales.Create.{
  SaleResult, SaleInput, SaleItemInput, SaleClock, Till, sale_line, sale_lines, sale_item,
  sale_items, sale_transaction, register_sale, resolve_sale_date, till,
}

-- What the items of a sale take from the stock of a store.
abbrev pub sold : ℕ → List SaleItemInput → Change
sold store [] p s = pos 0
sold store (i ∷ is) p s = at i.product_id store (neg i.quantity) p s +ℤ sold store is p s

create_sale_item-Posts : (i : SaleItem) → Posts (create_sale_item i) unchanged Any
unfolding create_sale_item
create_sale_item-Posts i = quiet-Posts (create_sale_item i) Any (λ db. (refl, refl)) (λ _ _ _. tt)

create_sale-Posts : (s : Sale) → Posts (create_sale s) unchanged Any
unfolding create_sale
create_sale-Posts s = quiet-Posts (create_sale s) Any (λ db. (refl, refl)) (λ _ _ _. tt)

sale_line-Posts :
    (t : Till) (i : SaleItemInput) (l : ExitLine)
    → Posts (sale_line t i l) (at i.product_id t.store (neg l.quantity)) Any
unfolding sale_line
sale_line-Posts t i l =
    first-Posts (post_movement _) _ (at i.product_id t.store (neg l.quantity)) Any Any
      (post_movement-Posts _)
      λ _ _.
        then-Posts (debit_batch l) _ unchanged Any Any (debit_batch-Posts l)
          λ _ _. create_sale_item-Posts _

sale_lines-Posts :
    (t : Till) (i : SaleItemInput) (ls : List ExitLine)
    → Posts (sale_lines t i ls) (at i.product_id t.store (neg (total ls))) Any
unfolding sale_lines
sale_lines-Posts t i [] =
    same-Posts _ unchanged _ Any (pure-Posts tt Any tt) (at-neg_zero i.product_id t.store)
sale_lines-Posts t i (l ∷ ls) =
    bind-Posts (sale_line t i l) _ (at i.product_id t.store (neg l.quantity))
      (at i.product_id t.store (neg (total ls)))
      (at i.product_id t.store (neg (l.quantity +ℤ total ls))) Any Any (sale_line-Posts t i l)
      (λ _ _. sale_lines-Posts t i ls) (at-neg i.product_id t.store l.quantity (total ls))

sale_item-Posts :
    (t : Till) (i : SaleItemInput)
    → Posts (sale_item t i) (at i.product_id t.store (neg i.quantity)) Any
unfolding sale_item
sale_item-Posts t i =
    let change = at i.product_id t.store (neg i.quantity) in
    then-Posts (lock_stock_row _ _) _ change Any Any (lock_stock_row-Posts _ _) λ _ _.
      then-Posts (gets _) _ change Any Any (gets-Posts _) λ found _.
        then-Posts (or_throw found _) _ change Any Any (or_throw-Posts found _) λ product _.
          then-Posts (resolve_exit_lines _ _ i.quantity _ _) _ change
            (λ lines. total lines ≡ i.quantity) Any (resolve_exit_lines-Posts _ _ i.quantity _ _)
            λ lines e.
              same-Posts _ (at i.product_id t.store (neg (total lines))) change Any
                (sale_lines-Posts t i lines) (λ p s. rw e)

sale_items-Posts :
    (t : Till) (is : List SaleItemInput) → Posts (sale_items t is) (sold t.store is) Any
unfolding sale_items
sale_items-Posts t [] = same-Posts _ unchanged _ Any (pure-Posts tt Any tt) (λ p s. refl)
sale_items-Posts t (i ∷ is) =
    bind-Posts (sale_item t i) _ (at i.product_id t.store (neg i.quantity)) (sold t.store is)
      (sold t.store (i ∷ is)) Any Any (sale_item-Posts t i) (λ _ _. sale_items-Posts t is)
      (λ p s. refl)

sale_transaction-Posts :
    (user : ℕ) (input : SaleInput) (sold_at : ℕ)
    → Posts (sale_transaction user input sold_at) (sold input.store_id input.items) Any
unfolding sale_transaction
sale_transaction-Posts user input sold_at =
    let change = sold input.store_id input.items in
    then-Posts (create_sale _) _ change Any Any (create_sale-Posts _) λ id _.
      first-Posts (sale_items _ _) _ change Any Any
        (sale_items-Posts (till user input id) input.items)
        λ _ _.
          then-Posts (record_audit _ _ _ _) _ unchanged Any Any (record_audit-Posts _ _ _ _)
            λ _ _. pure-Posts _ Any tt

lift-Outcome :
    {A B : Type 0} (r : Result A) (k : A → Action Db B) (change : Change) (db : Db)
    → ((a : A) → Outcome db change (k a db))
    → Outcome db change ((lift r >>= k) db)
unfolding ◌>>=◌
lift-Outcome (ok a) k change db h = h a
lift-Outcome (err e) k change db h = refl
lift-Outcome crash k change db h = refl

-- From a consistent ledger a sale either takes the quantity of each of its items from the stock of
-- its store, changes no other stock and keeps the ledger consistent, or it fails and leaves every
-- table as it was: no sale is partly debited.
pub register_sale-Outcome :
    (c : SaleClock) (user : ℕ) (input : SaleInput) (db : Db)
    → IsConsistent db.clock db.movements
    → Outcome db (sold input.store_id input.items) (register_sale c user input db)
unfolding register_sale
register_sale-Outcome c user input db ledger =
    let change = sold input.store_id input.items in
    let commit : ℕ → Action Db SaleResult = λ at. with_tenant (sale_transaction user input at) in
    throw_if-Outcome (is_empty input.items) validation_error
      (lift (resolve_sale_date c input.sale_date) >>= commit) change db
      (lift-Outcome (resolve_sale_date c input.sale_date) commit change db λ sold_at.
        with_tenant-Outcome (sale_transaction user input sold_at) change Any db
          (sale_transaction-Posts user input sold_at) ledger)

-- ===== src/Stock/Exits/Stock.antt =====
-- What an exit does to the stock.
use estoque_saas.Base.{ℕ, ◌≡◌, List, [], ◌∷◌, ◌++◌, ℤ, pos, ◌+ℤ◌, neg, Option-cases, inl, inr}
use estoque_saas.Shared.Errors.{validation_error}
use estoque_saas.Shared.Transaction.{gets, or_throw, with_tenant}
use estoque_saas.Stock.Db.{Db, record_audit, lock_stock_row}
use estoque_saas.Stock.Balance.{post_movement}
use estoque_saas.Stock.Balance.Ledger.{IsConsistent, at}
use estoque_saas.Stock.Balance.Posts.{
  Posts, Any, unchanged, Outcome, bind-Posts, then-Posts, first-Posts, pure-Posts,
  with_tenant-Outcome, post_movement-Posts, increment_batch-Posts, record_audit-Posts,
  lock_stock_row-Posts, gets-Posts, or_throw-Posts, same-Posts, at-neg, at-neg_zero,
  throw_if-Outcome,
}
use estoque_saas.Stock.Resolve.{ExitLine, resolve_exit_lines}
use estoque_saas.Stock.Resolve.Totals.{total}
use estoque_saas.Stock.Resolve.Cover.{resolve_exit_lines-Posts}
use estoque_saas.Stock.Exits.{
  StockExitInput, debit_batch, exit_line, exit_lines, exit_transaction, create_stock_exit,
}

pub debit_batch-Posts : (l : ExitLine) → Posts (debit_batch l) unchanged Any
unfolding debit_batch
debit_batch-Posts l = elim (Option-cases l.batch_id) [
  | inl e ↦ rw e (pure-Posts tt Any tt)
  | inr (id, e) ↦ rw e (increment_batch-Posts id (neg l.quantity))
]

exit_line-Posts :
    (user : ℕ) (input : StockExitInput) (l : ExitLine)
    → Posts (exit_line user input l) (at input.product_id input.store_id (neg l.quantity)) Any
unfolding exit_line
exit_line-Posts user input l =
    first-Posts (post_movement _) _ (at input.product_id input.store_id (neg l.quantity)) Any Any
      (post_movement-Posts _)
      λ posted _. then-Posts (debit_batch l) _ unchanged Any Any (debit_batch-Posts l) λ _ _.
        then-Posts (record_audit _ _ _ _) _ unchanged Any Any (record_audit-Posts _ _ _ _)
          λ _ _. pure-Posts posted Any tt

exit_lines-Posts :
    (user : ℕ) (input : StockExitInput) (ls : List ExitLine) (ids : List ℕ) (b : ℤ)
    → Posts
        (exit_lines user input ls ids b)
        (at input.product_id input.store_id (neg (total ls)))
        Any
unfolding exit_lines
exit_lines-Posts user input [] ids b =
    same-Posts _ unchanged _ Any (pure-Posts _ Any tt) (at-neg_zero input.product_id input.store_id)
exit_lines-Posts user input (l ∷ ls) ids b =
    bind-Posts (exit_line user input l) _ (at input.product_id input.store_id (neg l.quantity))
      (at input.product_id input.store_id (neg (total ls)))
      (at input.product_id input.store_id (neg (l.quantity +ℤ total ls))) Any Any
      (exit_line-Posts user input l)
      (λ posted _. exit_lines-Posts user input ls (ids ++ (posted.0 ∷ [])) posted.1)
      (at-neg input.product_id input.store_id l.quantity (total ls))

exit_transaction-Posts :
    (user : ℕ) (input : StockExitInput)
    → Posts
        (exit_transaction user input)
        (at input.product_id input.store_id (neg input.quantity))
        Any
unfolding exit_transaction
exit_transaction-Posts user input =
    let change = at input.product_id input.store_id (neg input.quantity) in
    then-Posts (lock_stock_row _ _) _ change Any Any (lock_stock_row-Posts _ _) λ _ _.
      then-Posts (gets _) _ change Any Any (gets-Posts _) λ found _.
        then-Posts (or_throw found _) _ change Any Any (or_throw-Posts found _) λ product _.
          then-Posts (resolve_exit_lines _ _ input.quantity _ _) _ change
            (λ lines. total lines ≡ input.quantity) Any
            (resolve_exit_lines-Posts _ _ input.quantity _ _)
            λ lines e.
              same-Posts _ (at input.product_id input.store_id (neg (total lines))) change Any
                (exit_lines-Posts user input lines [] (pos 0)) (λ p s. rw e)

-- From a consistent ledger an exit either takes exactly its quantity from the stock of its product
-- in its store, changes the stock of nothing else and keeps the ledger consistent, however many
-- batches it is split over, or it fails and leaves every table as it was.
pub create_stock_exit-Outcome :
    (user : ℕ) (input : StockExitInput) (db : Db)
    → IsConsistent db.clock db.movements
    → Outcome db
        (at input.product_id input.store_id (neg input.quantity))
        (create_stock_exit user input db)
unfolding create_stock_exit
create_stock_exit-Outcome user input db c =
    throw_if-Outcome _ validation_error (with_tenant (exit_transaction user input)) _ db (
      with_tenant-Outcome (exit_transaction user input) _ Any db (exit_transaction-Posts user input)
        c)

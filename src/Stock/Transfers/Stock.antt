-- ===== src/Stock/Transfers/Stock.antt =====
-- What a transfer does to the stock.
use estoque_saas.Base.{
  arith, ℕ, ◌≡◌, refl, Option, none, some, List, [], ◌∷◌, ℤ, pos, ◌+ℤ◌, neg, int_laws, ◌==◌,
}
use estoque_saas.Shared.Errors.{validation_error}
use estoque_saas.Shared.Transaction.{Action, gets, or_throw, or_fail, with_tenant, throw_if, ◌>>=◌}
use estoque_saas.Stock.Rows.{Batch, Transfer}
use estoque_saas.Stock.Db.{
  Db, increment_batch, create_batch, record_audit, lock_stock_row, create_transfer_row,
  create_transfer_item,
}
use estoque_saas.Stock.Balance.{post_movement}
use estoque_saas.Stock.Balance.Ledger.{IsConsistent, Change, at}
use estoque_saas.Stock.Balance.Posts.{
  Posts, Any, unchanged, Outcome, bind-Posts, then-Posts, first-Posts, quiet-Posts, pure-Posts,
  with_tenant-Outcome, post_movement-Posts, increment_batch-Posts, record_audit-Posts,
  lock_stock_row-Posts, gets-Posts, or_throw-Posts, or_fail-Posts, same-Posts, at-neg, at-add,
  throw_if-Outcome,
}
use estoque_saas.Stock.Resolve.{ExitLine, resolve_exit_lines}
use estoque_saas.Stock.Resolve.Totals.{total}
use estoque_saas.Stock.Resolve.Cover.{resolve_exit_lines-Posts}
use estoque_saas.Stock.Transfers.{
  TransferInput, TransferItemInput, Route, lock_both, credit_batch, move_batch, transfer_line,
  transfer_lines, transfer_one_item, transfer_items, transfer_transaction, create_transfer, route,
  is_empty,
}

-- `q` units of a product leave the origin and reach the destination.
abbrev pub shipped : ℕ → ℕ → ℕ → ℤ → Change
shipped product origin destination q p s =
    at product origin (neg q) p s +ℤ at product destination q p s

abbrev pub shipped_all : ℕ → ℕ → List TransferItemInput → Change
shipped_all origin destination [] p s = pos 0
shipped_all origin destination (i ∷ is) p s =
    shipped i.product_id origin destination i.quantity p s +ℤ shipped_all origin destination is p s

shipped-add :
    (product origin destination : ℕ) (a b : ℤ) (p s : ℕ)
    → shipped product origin destination (a +ℤ b) p s
      ≡ shipped product origin destination a p s +ℤ shipped product origin destination b p s
shipped-add product origin destination a b p s =
    grind (int_laws, at-neg product origin a b p s, at-add product destination a b p s)

shipped_zero :
    (product origin destination p s : ℕ) → shipped product origin destination (pos 0) p s ≡ pos 0
shipped_zero product origin destination p s = grind int_laws

create_batch-Posts : (b : Batch) → Posts (create_batch b) unchanged Any
unfolding create_batch
create_batch-Posts b =
    quiet-Posts (create_batch b) Any (λ db. (ground arith, ground arith)) (λ _ _ _. tt)

credit_batch-Posts :
    (product destination : ℕ) (origin : Batch) (q : ℤ) (existing : Option Batch)
    → Posts (credit_batch product destination origin q existing) unchanged Any
unfolding credit_batch
credit_batch-Posts product destination origin q (some b) =
    then-Posts (increment_batch b.id q) _ unchanged Any Any (increment_batch-Posts b.id q)
      λ _ _. pure-Posts _ Any tt
credit_batch-Posts product destination origin q none =
    then-Posts (create_batch _) _ unchanged Any Any (create_batch-Posts _)
      λ _ _. pure-Posts _ Any tt

move_batch-Posts :
    (product destination : ℕ) (q : ℤ) (batch : Option ℕ)
    → Posts (move_batch product destination q batch) unchanged Any
unfolding move_batch
move_batch-Posts product destination q none = pure-Posts none Any tt
move_batch-Posts product destination q (some id) =
    then-Posts (gets _) _ unchanged Any Any (gets-Posts _) λ found _.
      then-Posts (or_fail found) _ unchanged Any Any (or_fail-Posts found) λ origin _.
        then-Posts (increment_batch id (neg q)) _ unchanged Any Any (increment_batch-Posts _ _)
          λ _ _.
            then-Posts (gets _) _ unchanged Any Any (gets-Posts _)
              λ existing _. credit_batch-Posts product destination origin q existing

transfer_line-Posts :
    (r : Route) (product : ℕ) (l : ExitLine)
    → Posts (transfer_line r product l) (shipped product r.origin r.destination l.quantity) Any
unfolding transfer_line create_transfer_item
transfer_line-Posts r product l =
    let leaves = at product r.origin (neg l.quantity) in
    let arrives = at product r.destination l.quantity in
    bind-Posts (post_movement _) _ leaves arrives
      (shipped product r.origin r.destination l.quantity) Any Any (post_movement-Posts _)
      (λ _ _.
        then-Posts (move_batch _ _ _ _) _ arrives Any Any (move_batch-Posts _ _ _ _) λ batch _.
          first-Posts (post_movement _) _ arrives Any Any (post_movement-Posts _)
            λ _ _. quiet-Posts (create_transfer_item _) Any (λ db. (refl, refl)) (λ _ _ _. tt))
      (λ p s. refl)

transfer_lines-Posts :
    (r : Route) (product : ℕ) (ls : List ExitLine)
    → Posts (transfer_lines r product ls) (shipped product r.origin r.destination (total ls)) Any
unfolding transfer_lines
transfer_lines-Posts r product [] =
    same-Posts _ unchanged _ Any (pure-Posts tt Any tt)
      (shipped_zero product r.origin r.destination)
transfer_lines-Posts r product (l ∷ ls) =
    bind-Posts (transfer_line r product l) _ (shipped product r.origin r.destination l.quantity)
      (shipped product r.origin r.destination (total ls))
      (shipped product r.origin r.destination (l.quantity +ℤ total ls)) Any Any
      (transfer_line-Posts r product l) (λ _ _. transfer_lines-Posts r product ls)
      (shipped-add product r.origin r.destination l.quantity (total ls))

lock_both-Posts : (p o d : ℕ) → Posts (lock_both p o d) unchanged Any
unfolding lock_both
lock_both-Posts p o d =
    then-Posts (lock_stock_row _ _) _ unchanged Any Any (lock_stock_row-Posts _ _)
      λ _ _. lock_stock_row-Posts _ _

transfer_one_item-Posts :
    (r : Route) (i : TransferItemInput)
    → Posts (transfer_one_item r i) (shipped i.product_id r.origin r.destination i.quantity) Any
unfolding transfer_one_item
transfer_one_item-Posts r i =
    let change = shipped i.product_id r.origin r.destination i.quantity in
    then-Posts (lock_both _ _ _) _ change Any Any (lock_both-Posts _ _ _) λ _ _.
      then-Posts (gets _) _ change Any Any (gets-Posts _) λ found _.
        then-Posts (or_throw found _) _ change Any Any (or_throw-Posts found _) λ product _.
          then-Posts (resolve_exit_lines _ _ i.quantity _ _) _ change
            (λ lines. total lines ≡ i.quantity) Any (resolve_exit_lines-Posts _ _ i.quantity _ _)
            λ lines e.
              same-Posts _ (shipped i.product_id r.origin r.destination (total lines)) change Any
                (transfer_lines-Posts r i.product_id lines) (λ p s. rw e)

transfer_items-Posts :
    (r : Route) (is : List TransferItemInput)
    → Posts (transfer_items r is) (shipped_all r.origin r.destination is) Any
unfolding transfer_items
transfer_items-Posts r [] = same-Posts _ unchanged _ Any (pure-Posts tt Any tt) (λ p s. refl)
transfer_items-Posts r (i ∷ is) =
    bind-Posts (transfer_one_item r i) _ (shipped i.product_id r.origin r.destination i.quantity)
      (shipped_all r.origin r.destination is) (shipped_all r.origin r.destination (i ∷ is)) Any Any
      (transfer_one_item-Posts r i) (λ _ _. transfer_items-Posts r is) (λ p s. refl)

create_transfer_row-Posts : (t : Transfer) → Posts (create_transfer_row t) unchanged Any
unfolding create_transfer_row
create_transfer_row-Posts t =
    quiet-Posts (create_transfer_row t) Any (λ db. (refl, refl)) (λ _ _ _. tt)

transfer_transaction-Posts :
    (user : ℕ) (input : TransferInput)
    → Posts
        (transfer_transaction user input)
        (shipped_all input.origin_store_id input.destination_store_id input.items)
        Any
unfolding transfer_transaction
transfer_transaction-Posts user input =
    let change = shipped_all input.origin_store_id input.destination_store_id input.items in
    then-Posts (create_transfer_row _) _ change Any Any (create_transfer_row-Posts _) λ id _.
      first-Posts (transfer_items _ _) _ change Any Any
        (transfer_items-Posts (route user input id) input.items)
        λ _ _.
          then-Posts (record_audit _ _ _ _) _ unchanged Any Any (record_audit-Posts _ _ _ _)
            λ _ _. pure-Posts id Any tt

-- From a consistent ledger a transfer either takes the quantity of each item from the origin's stock
-- and adds it to the destination's, changes no other stock and keeps the ledger consistent, or it
-- fails and leaves every table as it was.
pub create_transfer-Outcome :
    (user : ℕ) (input : TransferInput) (db : Db)
    → IsConsistent db.clock db.movements
    → Outcome db
        (shipped_all input.origin_store_id input.destination_store_id input.items)
        (create_transfer user input db)
unfolding create_transfer
create_transfer-Outcome user input db c =
    let change = shipped_all input.origin_store_id input.destination_store_id input.items in
    let commit : Action Db ℕ = with_tenant (transfer_transaction user input) in
    throw_if-Outcome (input.origin_store_id == input.destination_store_id) validation_error
      (throw_if (is_empty input.items) validation_error >>= λ _. commit) change db
      (throw_if-Outcome (is_empty input.items) validation_error commit change db (
        with_tenant-Outcome (transfer_transaction user input) change Any db
          (transfer_transaction-Posts user input) c))

-- ===== src/History/Refines.antt =====
-- Every history of the operations on the stock refines the book of what was promised.
use estoque_saas.Base.{
  Bool-cases, inl, inr, ◌&&◌, not, ℕ, ◌≡◌, refl, ap, Option, none, some, List, [], ◌∷◌,
}
use estoque_saas.Shared.Transaction.{Result, ok, err, crash}
use estoque_saas.Stock.Rows.{NfeImport}
use estoque_saas.Stock.Db.{Db}
use estoque_saas.Stock.Db.{is_product}
use estoque_saas.Stock.Balance.Ledger.{at, IsConsistent, Change, Shifts, Shifts-trans, Shifts-quiet}
use estoque_saas.Stock.Balance.Posts.{Outcome, unchanged}
use estoque_saas.Stock.Entries.{ManualEntryInput, create_manual_entry}
use estoque_saas.Stock.Entries.Stock.{create_manual_entry_lem, has_batch}
use estoque_saas.Stock.Exits.Stock.{create_stock_exit-Outcome}
use estoque_saas.Stock.Transfers.Stock.{create_transfer-Outcome}
use estoque_saas.Stock.Nfe.{Override, confirm_import, find_import}
use estoque_saas.Stock.Nfe.Reading.{Parsing}
use estoque_saas.Stock.Nfe.Review.{stock_part, import_moves_no_stock}
use estoque_saas.Stock.Nfe.Confirm.{confirm_import-Outcome, confirm_import-missing}
use estoque_saas.Sales.Create.Stock.{register_sale-Outcome}
use estoque_saas.History.{Command, perform, promise, run, book, credit, succeeded, invoiced}

stays :
    (db after : Db) → IsConsistent db.clock db.movements → after ≡ db → Shifts db unchanged after
stays db after c e =
    Shifts-quiet db after unchanged c (ap (λ d. d.movements) e) (ap (λ d. d.clock) e) (λ _ _. refl)

-- How an operation ends, told by its answer.
Outcome-succeeded :
    {A : Type 0} (db : Db) (f : Change) (r : Result A × Db)
    → IsConsistent db.clock db.movements
    → Outcome db f r
    → Shifts db (credit (succeeded r).0 f) (succeeded r).1
Outcome-succeeded db f (ok a, after) c h = h
Outcome-succeeded db f (err e, after) c h = stays db after c h
Outcome-succeeded db f (crash, after) c h = stays db after c h

-- An operation that has answered a value.
ok-Outcome :
    {A : Type 0} (db : Db) (f : Change) (r : Result A × Db) (a : A)
    → r.0 ≡ ok a
    → Shifts db f r.1
    → Outcome db f r
ok-Outcome db f (ok b, after) a e h = h
ok-Outcome db f (err c, after) a e h = cc
ok-Outcome db f (crash, after) a e h = cc

create_manual_entry-Outcome :
    (user : ℕ) (input : ManualEntryInput) (db : Db)
    → IsConsistent db.clock db.movements
    → Outcome db
        (at input.product_id input.store_id input.quantity)
        (create_manual_entry user input db)
create_manual_entry-Outcome user input db k =
    let (refused, entered) = create_manual_entry_lem user input db k in
    elim (Bool-cases (has_batch input && not (is_product input.product_id db))) [
      | inl h ↦ rw (refused h) refl
      | inr h ↦
          let done = entered h in
          ok-Outcome db _ (create_manual_entry user input db) done.0 done.1 done.2
    ]

-- A call that changes no movement, whatever it answers.
succeeded-quiet :
    {A : Type 0} (db : Db) (r : Result A × Db)
    → IsConsistent db.clock db.movements
    → stock_part r.1 ≡ stock_part db
    → Shifts db (credit (succeeded r).0 unchanged) (succeeded r).1
succeeded-quiet db (ok a, after) c h =
    Shifts-quiet db after unchanged c (ap (λ t. t.0) h) (ap (λ t. t.2) h) (λ _ _. refl)
succeeded-quiet db (err e, after) c h =
    Shifts-quiet db after unchanged c (ap (λ t. t.0) h) (ap (λ t. t.2) h) (λ _ _. refl)
succeeded-quiet db (crash, after) c h =
    Shifts-quiet db after unchanged c (ap (λ t. t.0) h) (ap (λ t. t.2) h) (λ _ _. refl)

confirm-Shifts :
    (user now id : ℕ) (os : List Override) (db : Db)
    → IsConsistent db.clock db.movements
    → (found : Option NfeImport) → find_import id db ≡ found
    → Outcome db (invoiced found id db) (confirm_import user now id os db)
confirm-Shifts user now id os db c none e = rw (confirm_import-missing user now id os db e) refl
confirm-Shifts user now id os db c (some i) e = confirm_import-Outcome user now id os db c i e

-- From a consistent ledger each call keeps the ledger consistent and shifts the stock by what it
-- promises, if it succeeds, and by nothing, if it does not.
perform-Shifts :
    (c : Command) (db : Db)
    → IsConsistent db.clock db.movements
    → Shifts db (credit (perform c db).0 (promise c db)) (perform c db).1
unfolding perform promise
perform-Shifts (Command.enter user input) db k =
    Outcome-succeeded db _ _ k (create_manual_entry-Outcome user input db k)
perform-Shifts (Command.take_out user input) db k =
    Outcome-succeeded db _ _ k (create_stock_exit-Outcome user input db k)
perform-Shifts (Command.transfer user input) db k =
    Outcome-succeeded db _ _ k (create_transfer-Outcome user input db k)
perform-Shifts (Command.sell clock user input) db k =
    Outcome-succeeded db _ _ k (register_sale-Outcome clock user input db k)
perform-Shifts (Command.upload store file) db k =
    succeeded-quiet db _ k (import_moves_no_stock 0 0 0 store file (Parsing.unreadable []) db).0
perform-Shifts (Command.parse import_id answer) db k =
    succeeded-quiet db _ k (import_moves_no_stock import_id 0 0 0 0 answer db).1
perform-Shifts (Command.link import_id item product) db k =
    succeeded-quiet db _ k
      (import_moves_no_stock import_id item product 0 0 (Parsing.unreadable []) db).2
perform-Shifts (Command.confirm user now id os) db k =
    Outcome-succeeded db _ _ k (confirm-Shifts user now id os db k (find_import id db) refl)

-- Any history of manual entries, exits, transfers, sales and invoices, run from a consistent ledger
-- with calls that may succeed or fail, ends in a consistent ledger, and the stock of every product in
-- every store has changed by exactly the sum of what the successful calls have promised.
pub run-Shifts :
    (cs : List Command) (db : Db)
    → IsConsistent db.clock db.movements
    → Shifts db (book cs db) (run cs db)
unfolding run book
run-Shifts [] db k = Shifts-quiet db db _ k refl refl (λ _ _. refl)
run-Shifts (c ∷ cs) db k =
    let one = perform-Shifts c db k in
    Shifts-trans db (perform c db).1 (run cs (perform c db).1)
      (credit (perform c db).0 (promise c db)) (book cs (perform c db).1) (book (c ∷ cs) db) one
      (run-Shifts cs (perform c db).1 one.consistent) (λ p s. refl)

-- ===== src/History.antt =====
-- The operations on the stock together: services/app/src/modules/stock (entries.ts, exits.ts,
-- transfers.ts, nfe-import.ts) and services/app/src/modules/sales/sales.ts, called one after another
-- on the tables of a tenant.
use estoque_saas.Base.{ℕ, Bool, true, false, Option, none, some, List, [], ◌∷◌, ℤ, pos, ◌+ℤ◌, neg}
use estoque_saas.Shared.Transaction.{Result, ok, err, crash}
use estoque_saas.Stock.Rows.{NfeImport}
use estoque_saas.Stock.Db.{Db}
use estoque_saas.Stock.Balance.Ledger.{Change, at}
use estoque_saas.Stock.Balance.Posts.{unchanged}
use estoque_saas.Stock.Entries.{ManualEntryInput, create_manual_entry}
use estoque_saas.Stock.Exits.{StockExitInput, create_stock_exit}
use estoque_saas.Stock.Transfers.{TransferInput, create_transfer}
use estoque_saas.Stock.Transfers.Stock.{shipped_all}
use estoque_saas.Stock.Nfe.{Override, link_item_to_product, confirm_import, find_import, items_of}
use estoque_saas.Stock.Nfe.Reading.{Parsing, upload_import, process_import_job}
use estoque_saas.Stock.Nfe.Receive.{received}
use estoque_saas.Sales.Create.{SaleInput, SaleClock, register_sale}
use estoque_saas.Sales.Create.Stock.{sold}
pub mod Refines
pub mod Tests

-- A call of one operation, with the user who makes it and what the operation is given.
pub data Command : Type 0 where
  enter : ℕ → ManualEntryInput → Command
  take_out : ℕ → StockExitInput → Command
  transfer : ℕ → TransferInput → Command
  sell : SaleClock → ℕ → SaleInput → Command
  upload : (store file : ℕ) → Command
  parse : (import_id : ℕ) → Parsing → Command
  link : (import_id item product : ℕ) → Command
  confirm : (user now import_id : ℕ) → List Override → Command

abbrev succeeded : {A : Type 0} → Result A × Db → Bool × Db
succeeded (ok a, db) = (true, db)
succeeded (err e, db) = (false, db)
succeeded (crash, db) = (false, db)

-- What a call leaves behind, and whether it has succeeded.
unfoldable pub perform : Command → Db → Bool × Db
perform (enter user input) db = succeeded (create_manual_entry user input db)
perform (take_out user input) db = succeeded (create_stock_exit user input db)
perform (transfer user input) db = succeeded (create_transfer user input db)
perform (sell clock user input) db = succeeded (register_sale clock user input db)
perform (upload store file) db = succeeded (upload_import store file db)
perform (parse import_id answer) db = succeeded (process_import_job import_id answer db)
perform (link import_id item product) db =
    succeeded (link_item_to_product import_id item product db)
perform (confirm user now import_id os) db = succeeded (confirm_import user now import_id os db)

-- What the items of an invoice bring into its store.
abbrev pub invoiced : Option NfeImport → ℕ → Db → Change
invoiced none id db = unchanged
invoiced (some i) id db = received i.store_id db (items_of id db)

-- The promise of an operation: how the stock changes if the call succeeds. No table but the
-- invoice's own is consulted.
unfoldable pub promise : Command → Db → Change
promise (enter user input) db = at input.product_id input.store_id input.quantity
promise (take_out user input) db = at input.product_id input.store_id (neg input.quantity)
promise (transfer user input) db =
    shipped_all input.origin_store_id input.destination_store_id input.items
promise (sell clock user input) db = sold input.store_id input.items
promise (upload store file) db = unchanged
promise (parse import_id answer) db = unchanged
promise (link import_id item product) db = unchanged
promise (confirm user now import_id os) db = invoiced (find_import import_id db) import_id db

-- A history is run call by call, whatever each call answers.
unfoldable pub run : List Command → Db → Db
run [] db = db
run (c ∷ cs) db = run cs (perform c db).1

-- The book that an accountant would keep: the sum of what the successful calls have promised.
abbrev pub credit : Bool → Change → Change
credit true f = f
credit false f = unchanged

unfoldable pub book : List Command → Db → Change
book [] db p s = pos 0
book (c ∷ cs) db p s = credit (perform c db).0 (promise c db) p s +ℤ book cs (perform c db).1 p s

-- ===== src/History/Tests.antt =====
-- A history of a small shop.
use estoque_saas.Base.{none, [], ◌∷◌, List, pos}
use estoque_saas.Stock.Balance.Ledger.{Shifts}
use estoque_saas.Stock.Tests.{shop, shop-IsConsistent}
use estoque_saas.Stock.Exits.{StockExitInput, perda}
use estoque_saas.Stock.Transfers.{TransferInput}
use estoque_saas.Stock.Nfe.Reading.{unreadable}
use estoque_saas.History.{Command, run, book, take_out, transfer, upload, parse, confirm}
use estoque_saas.History.Refines.{run-Shifts}

abbrev broken : StockExitInput
broken = record {
  product_id = 1;
  store_id = 1;
  quantity = pos 3;
  kind = perda;
  reason = none;
  batch_id = none;
}

-- A transfer of a store to itself is refused.
abbrev circle : TransferInput
circle = record {
  origin_store_id = 1;
  destination_store_id = 1;
  items = record { product_id = 1; batch_id = none; quantity = pos 2 } ∷ [];
}

abbrev week : List Command
week =
    take_out 7 broken
    ∷ transfer 7 circle
    ∷ upload 1 3
    ∷ parse 102 (unreadable [])
    ∷ take_out 8 broken
    ∷ confirm 7 9 102 []
    ∷ []

run-Shifts_example : Shifts shop (book week shop) (run week shop)
run-Shifts_example = run-Shifts week shop shop-IsConsistent

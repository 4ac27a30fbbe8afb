-- ===== src/Stock/Alerts/Tests.antt =====
-- Alerts of a small shop.
use estoque_saas.Base.{◌≡◌, none, some, List, [], ◌∷◌, pos, select}
use estoque_saas.Stock.Rows.{Batch}
use estoque_saas.Stock.Db.{Db, is_live}
use estoque_saas.Stock.Tests.{shop}
use estoque_saas.Stock.Alerts.{Notification, StoreSetting, expiry, list_low_stock_alerts}
use estoque_saas.Stock.Alerts.Low.{names, product_ids, is_low, list_low_stock_alerts_lem}

abbrev crate : Batch
crate = record {
  id = 60;
  product_id = 1;
  store_id = 1;
  batch_number = 76 ∷ [];
  expiry_date = 20000;
  quantity = pos 4;
}

abbrev stocked : Db
stocked = record shop { batches = crate ∷ [] }

abbrev known : List Notification
known = record { kind = expiry; reference = 60; created_at = 1727000000000 } ∷ []

abbrev wants : List StoreSetting
wants = record { product_id = 1; store_id = 2; min_stock_override = some (pos 3) } ∷ []

list_low_stock_alerts_lem_example :
    names (list_low_stock_alerts none shop wants)
    ≡ product_ids (select (is_low none shop wants) (select is_live shop.products))
list_low_stock_alerts_lem_example = list_low_stock_alerts_lem none shop wants

-- ===== src/Stock/Alerts.antt =====
-- services/app/src/modules/stock/expiry-scan.ts (the daily scan for notifications) and
-- services/app/src/modules/stock/alerts.ts (the same questions, asked by a screen).
use estoque_saas.Base.{
  ℕ, zero, suc, ◌+◌, ◌*◌, Bool, true, false, not, ◌&&◌, Option, none, some, List, [], ◌∷◌, map, ℤ,
  pos, ltb_ℤ, Text, ltb, leb, ◌==◌, if◌then◌else◌, or_else, is_some, any, find, select, mem_nat,
}
use estoque_saas.Shared.Dates.{day_ms}
use estoque_saas.Stock.Rows.{Product, Batch}
use estoque_saas.Stock.Db.{Db, is_live}
use estoque_saas.Stock.Balance.{get, get_current_stock_for_products}
pub mod Repeats
pub mod Due
pub mod Scanned
pub mod Stores
pub mod Low
pub mod Tests

pub data NotificationType : Type 0 where
  expiry low_stock : NotificationType

-- A row of `notifications`, with the identifier that its payload refers to: the batch or the product.
pub record Notification : Type 0 where
  pub kind : NotificationType
  pub reference : ℕ
  pub created_at : ℕ

-- `stock_alerts_config`; the days are `none` where the column holds no array.
pub record AlertsConfig : Type 0 where
  pub expiry_alert_days : Option (List ℕ)
  pub low_stock_alert_enabled : Bool

pub record StoreSetting : Type 0 where
  pub product_id : ℕ
  pub store_id : ℕ
  pub min_stock_override : Option ℤ

abbrev pub same_kind : NotificationType → NotificationType → Bool
same_kind expiry expiry = true
same_kind low_stock low_stock = true
same_kind _ _ = false

abbrev pub twenty_hours : ℕ
twenty_hours = 72000000

-- `alreadyNotifiedRecently`, at a time in milliseconds.
pub already_notified_recently : NotificationType → ℕ → ℕ → List Notification → Bool
already_notified_recently kind reference now = any λ n.
    same_kind n.kind kind && (n.reference == reference && leb now (n.created_at + twenty_hours))

abbrev pub larger : ℕ → ℕ → ℕ
larger a b = if leb b a then a else b

abbrev pub largest : List ℕ → ℕ
largest [] = 30
largest (d ∷ ds) = larger d (largest ds)

abbrev pub days_of : Option AlertsConfig → Option (List ℕ)
days_of none = none
days_of (some c) = c.expiry_alert_days

-- `Math.max(...windowDays, 30)`
pub max_window : Option AlertsConfig → ℕ
max_window config = largest (or_else (days_of config) (30 ∷ 15 ∷ 7 ∷ []))

abbrev pub expires_within : ℕ → Option AlertsConfig → Batch → Bool
expires_within now config b = leb (b.expiry_date * day_ms) (now + max_window config * day_ms)

-- The batches that `scanOneTenant` finds.
unfoldable pub expiring : ℕ → Option AlertsConfig → Db → List Batch
expiring now config db =
    select (λ b. expires_within now config b && ltb_ℤ (pos 0) b.quantity) db.batches

-- The products below their minimum, by the batched read.
unfoldable pub below_minimum : Db → List Product
below_minimum db =
    let products = select is_live db.products in
    let stock =
      get_current_stock_for_products (map (λ (p : Product). p.id) products) none db.movements in
    select (λ p. ltb_ℤ (or_else (get p.id stock) (pos 0)) p.min_stock_global) products

-- A loop of the scan over what it refers to: what was not notified recently is notified now. How many
-- there were, and the notifications.
pub notify_all : NotificationType → ℕ → List ℕ → List Notification → ℕ × List Notification
notify_all kind now [] ns = (0, ns)
notify_all kind now (r ∷ rs) ns =
    let known = already_notified_recently kind r now ns in
    let (created, after) =
      notify_all kind now rs
        (if known then ns else record { kind = kind; reference = r; created_at = now } ∷ ns) in
    (if known then created else suc created, after)

abbrev pub wants_low_stock : Option AlertsConfig → Bool
wants_low_stock none = true
wants_low_stock (some c) = c.low_stock_alert_enabled

-- `scanOneTenant`
unfoldable pub scan_one_tenant :
    ℕ → Option AlertsConfig → Db → List Notification → ℕ × List Notification
scan_one_tenant now config db ns =
    let (created, after) =
      notify_all expiry now (map (λ (b : Batch). b.id) (expiring now config db)) ns in
    let low = if wants_low_stock config then below_minimum db else [] in
    let (more, last) = notify_all low_stock now (map (λ (p : Product). p.id) low) after in
    (created + more, last)

-- What a screen shows of a product that is low.
pub record LowStockProduct : Type 0 where
  pub id : ℕ
  pub sku : Option Text
  pub name : Text
  pub current_stock : ℤ
  pub min_stock : ℤ

-- `getCurrentStockForProducts(...).get(id) ?? 0`
abbrev pub stock_of : Db → Option ℕ → List ℕ → ℕ → ℤ
stock_of db store ids p =
    or_else (get p (get_current_stock_for_products ids store db.movements)) (pos 0)

-- The stores of the overrides, each where it first stands, as a `Map` keeps its keys.
pub stores_in : List ℕ → List StoreSetting → List ℕ
stores_in seen [] = []
stores_in seen (o ∷ os) =
    let rest = stores_in (if mem_nat o.store_id seen then seen else o.store_id ∷ seen) os in
    if mem_nat o.store_id seen then rest else o.store_id ∷ rest

-- The override of a product that a store is below, with the stock of that store.
abbrev pub below_override : Db → List ℕ → ℕ → ℕ → StoreSetting → Bool
below_override db ids p store o =
    (o.product_id == p)
    && (if is_some o.min_stock_override
        then ltb_ℤ (stock_of db (some store) ids p) (or_else o.min_stock_override (pos 0))
        else false)

-- The stock of a store and the minimum that it is below.
abbrev pub lowness : ℤ → Option StoreSetting → Option (ℤ × ℤ)
lowness current none = none
lowness current (some o) = some (current, or_else o.min_stock_override (pos 0))

abbrev pub first_of : Option (ℤ × ℤ) → Option (ℤ × ℤ) → Option (ℤ × ℤ)
first_of none later = later
first_of (some low) later = some low

-- `storeLow.get(id)`: the stores are visited in order, and the first that is low is kept.
pub store_low : Db → ℕ → List StoreSetting → List ℕ → Option (ℤ × ℤ)
store_low db p os [] = none
store_low db p os (store ∷ stores) =
    let rest = store_low db p os stores in
    let here = select (λ o. o.store_id == store) os in
    let ids = map (λ (o : StoreSetting). o.product_id) here in
    first_of (lowness (stock_of db (some store) ids p) (find (below_override db ids p store) here))
      rest

-- The overrides that are not null, of products that are asked for.
abbrev pub real_overrides : List ℕ → List StoreSetting → List StoreSetting
real_overrides ids os = select (λ o. mem_nat o.product_id ids && is_some o.min_stock_override) os

abbrev pub min_of : Option StoreSetting → Option ℤ
min_of none = none
min_of (some o) = o.min_stock_override

abbrev pub override_at : Option ℕ → ℕ → List StoreSetting → Option ℤ
override_at none p os = none
override_at (some store) p os = min_of (find (λ o. (o.store_id == store) && (o.product_id == p)) os)

abbrev pub store_low_at : Option ℕ → Db → List ℕ → List StoreSetting → ℕ → Option (ℤ × ℤ)
store_low_at (some store) db ids os p = none
store_low_at none db ids os p =
    let real = real_overrides ids os in store_low db p real (stores_in [] real)

abbrev pub low_product : Product → ℤ → ℤ → LowStockProduct
low_product p current min = record {
  id = p.id;
  sku = p.sku;
  name = p.name;
  current_stock = current;
  min_stock = min;
}

abbrev pub store_alert : Product → Option (ℤ × ℤ) → Option LowStockProduct
store_alert p none = none
store_alert p (some (current, min)) = some (low_product p current min)

abbrev pub push : Option LowStockProduct → List LowStockProduct → List LowStockProduct
push none rest = rest
push (some a) rest = a ∷ rest

-- The alert of a product, if it has one.
pub alert_of : Option ℕ → Db → List ℕ → List StoreSetting → Product → Option LowStockProduct
alert_of store db ids os p =
    let min = or_else (override_at store p.id os) p.min_stock_global in
    let current = stock_of db store ids p.id in
    if ltb_ℤ current min
    then some (low_product p current min)
    else store_alert p (store_low_at store db ids os p.id)

pub alerts_of : Option ℕ → Db → List ℕ → List StoreSetting → List Product → List LowStockProduct
alerts_of store db ids os [] = []
alerts_of store db ids os (p ∷ ps) =
    push (alert_of store db ids os p) (alerts_of store db ids os ps)

-- `listLowStockAlerts`
unfoldable pub list_low_stock_alerts : Option ℕ → Db → List StoreSetting → List LowStockProduct
list_low_stock_alerts store db os =
    let products = select is_live db.products in
    alerts_of store db (map (λ (p : Product). p.id) products) os products

-- `listExpiringBatches`, before its rows are sorted by expiry.
unfoldable pub list_expiring_batches : Option ℕ → ℕ → Option AlertsConfig → Db → List Batch
list_expiring_batches store now config db =
    select (λ b. ltb_ℤ (pos 0) b.quantity)
      (select
        (λ b.
          expires_within now config b
          && (if is_some store then b.store_id == or_else store 0 else true))
        db.batches)

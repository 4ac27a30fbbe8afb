-- ===== src/Catalog/Products.antt =====
-- services/app/src/modules/catalog/products.ts (products, within the plan's limit) and
-- services/app/src/modules/catalog/csv-import.ts (products from a CSV file).
use estoque_saas.Base.{
  ℕ, suc, ◌+◌, Bool, true, false, not, ◌&&◌, ◌||◌, Option, none, some, List, [], ◌∷◌, ℤ, pos, Text,
  truthy, opt_text_eq, is_some, or_else, ◌==◌, if◌then◌else◌, find, any, update_where,
}
use estoque_saas.Shared.Errors.{not_found}
use estoque_saas.Shared.PlanLimits.{PlanLimits, Resource, assert_within_plan_limit}
use estoque_saas.Shared.Transaction.{
  Action, Result, ok, err, crash, ◌>>=◌, ◌>>◌, pure, gets, modify, lift, or_throw, or_fail, fail,
  with_tenant,
}
use estoque_saas.Stock.Rows.{Product, product, create, update, delete}
use estoque_saas.Stock.Db.{
  Db, record_audit, is_live, product_count, is_sku_taken, is_grounded, create_product_row,
}
use estoque_saas.Stock.Balance.{current_stock}
use estoque_saas.Catalog.Csv.{CsvProductRow, CsvParseResult, trim, parse_products_csv}
pub mod Counts
pub mod Skus

-- `ProductInput`
pub record ProductInput : Type 0 where
  pub sku : Option Text
  pub name : Text
  pub category_id : Option ℕ
  pub unit_of_measure : Text
  pub barcode : Option Text
  pub supplier_id : Option ℕ
  pub is_perishable : Option Bool
  pub min_stock_global : Option ℤ
  pub cost_price_cents : Option ℤ
  pub sale_price_cents : Option ℤ

-- `sku?.trim() || null`
abbrev pub filled : Text → Option Text
filled [] = none
filled (c ∷ cs) = some (c ∷ cs)

abbrev pub trimmed : Option Text → Option Text
trimmed none = none
trimmed (some sku) = filled (trim sku)

-- The row that `createProduct` inserts.
abbrev pub new_product : ProductInput → Product
new_product input = record {
  id = 0;
  sku = trimmed input.sku;
  name = input.name;
  category_id = input.category_id;
  unit_of_measure = input.unit_of_measure;
  barcode = input.barcode;
  supplier_id = input.supplier_id;
  is_perishable = or_else input.is_perishable false;
  min_stock_global = or_else input.min_stock_global (pos 0);
  cost_price_cents = or_else input.cost_price_cents (pos 0);
  sale_price_cents = or_else input.sale_price_cents (pos 0);
  deleted_at = none;
}

-- `withCurrentStock`
unfoldable pub with_current_stock : Product → Action Db (Product × ℤ)
with_current_stock p = gets (λ db. (p, current_stock p.id none db.movements))

-- The transaction of `createProduct`.
pub add_product : PlanLimits → ℕ → ProductInput → Action Db (Product × ℤ)
add_product limits user input = do
  current_count ← gets product_count
  lift (assert_within_plan_limit Resource.products current_count limits 1)
  id ← create_product_row (new_product input)
  record_audit (some user) product id create
  with_current_stock (record (new_product input) { id = id })

-- `createProduct`; the plan is what `getTenantWithPlan` finds.
unfoldable pub create_product : Option PlanLimits → ℕ → ProductInput → Action Db (Product × ℤ)
create_product plan user input =
    or_fail plan >>= λ limits. with_tenant (add_product limits user input)

abbrev pub find_live : ℕ → Db → Option Product
find_live id db = find (λ p. (p.id == id) && is_live p) db.products

-- `getProduct`
unfoldable pub get_product : ℕ → Action Db (Product × ℤ)
unfolding with_current_stock
get_product id =
    with_tenant (do found ← gets (find_live id); p ← or_throw found not_found; with_current_stock p)

-- `ProductUpdateInput`: what is not given stays.
pub record ProductUpdateInput : Type 0 where
  pub sku : Option Text
  pub name : Option Text
  pub category_id : Option ℕ
  pub unit_of_measure : Option Text
  pub barcode : Option Text
  pub supplier_id : Option ℕ
  pub is_perishable : Option Bool
  pub min_stock_global : Option ℤ
  pub cost_price_cents : Option ℤ
  pub sale_price_cents : Option ℤ

abbrev given : {A : Type 0} → Option A → Option A → Option A
given none old = old
given (some a) old = some a

abbrev pub revised : ProductUpdateInput → Product → Product
revised input p = record p {
  sku = given input.sku p.sku;
  name = or_else input.name p.name;
  category_id = given input.category_id p.category_id;
  unit_of_measure = or_else input.unit_of_measure p.unit_of_measure;
  barcode = given input.barcode p.barcode;
  supplier_id = given input.supplier_id p.supplier_id;
  is_perishable = or_else input.is_perishable p.is_perishable;
  min_stock_global = or_else input.min_stock_global p.min_stock_global;
  cost_price_cents = or_else input.cost_price_cents p.cost_price_cents;
  sale_price_cents = or_else input.sale_price_cents p.sale_price_cents;
}

-- `tx.product.update` of a product that is there: it throws where another product has the SKU or a
-- reference dangles.
unfoldable pub update_product_row : ℕ → Product → Action Db (Unit {0})
update_product_row id p db =
    if any (λ q. not (q.id == id) && (is_some p.sku && opt_text_eq q.sku p.sku)) db.products
      || not (is_grounded p db)
    then (crash, db)
    else (ok tt, record db { products = update_where (λ q. q.id == id) (λ q. p) db.products })

-- `updateProduct`
unfoldable pub update_product : ℕ → ℕ → ProductUpdateInput → Action Db (Product × ℤ)
update_product user id input = with_tenant (do
  found ← gets (find_live id)
  before ← or_throw found not_found
  update_product_row id (revised input before)
  record_audit (some user) product id update
  with_current_stock (revised input before))

abbrev pub deleted : ℕ → Product → Product
deleted now p = record p { deleted_at = some now }

-- `deleteProduct`
unfoldable pub delete_product : ℕ → ℕ → ℕ → Action Db (Unit {0})
delete_product user now id = with_tenant (do
  found ← gets (find_live id)
  before ← or_throw found not_found
  modify λ db. record db { products = update_where (λ p. p.id == id) (deleted now) db.products }
  record_audit (some user) product id delete)

-- The product of a CSV row that is there already.
abbrev pub existing_row : CsvProductRow → Db → Option Product
existing_row row db =
    if truthy row.sku
    then find (λ p. opt_text_eq p.sku row.sku && is_live p) db.products
    else if truthy row.barcode
    then find (λ p. opt_text_eq p.barcode row.barcode && is_live p) db.products
    else none

-- The identifier of a row of the database, which throws on a text that is none.
module _ (identify : Text → Option ℕ) where
  unfoldable pub reference : Option Text → Action Db (Option ℕ)
  reference none = pure none
  reference (some t) = do id ← or_fail (identify t); pure (some id)

  unfoldable pub import_row : CsvProductRow → Action Db (Unit {0})
  import_row row = do
    category ← reference row.category_id
    supplier ← reference row.supplier_id
    create_product_row (record {
      id = 0;
      sku = trimmed row.sku;
      name = row.name;
      category_id = category;
      unit_of_measure = row.unit_of_measure;
      barcode = row.barcode;
      supplier_id = supplier;
      is_perishable = or_else row.is_perishable false;
      min_stock_global = or_else row.min_stock_global (pos 0);
      cost_price_cents = or_else row.cost_price_cents (pos 0);
      sale_price_cents = or_else row.sale_price_cents (pos 0);
      deleted_at = none;
    })
    pure tt

  -- One turn of the loop: whether a product was created, and not skipped.
  unfoldable pub import_one : CsvProductRow → Action Db Bool
  import_one row = do
    found ← gets (existing_row row)
    if is_some found then pure false else (do import_row row; pure true)

  abbrev pub tally : Bool → ℕ × ℕ → ℕ × ℕ
  tally made (created, skipped) = if made then (suc created, skipped) else (created, suc skipped)

  -- The loop over the rows: how many were created and how many were skipped.
  unfoldable pub import_rows : List CsvProductRow → Action Db (ℕ × ℕ)
  import_rows [] = pure (0, 0)
  import_rows (row ∷ rows) = do
    made ← import_one row
    rest ← import_rows rows
    pure (tally made rest)

  -- `processProductsCsvJob`
  unfoldable pub process_products_csv_job : Text → Action Db (ℕ × ℕ)
  process_products_csv_job text = with_tenant (import_rows (parse_products_csv text).rows)

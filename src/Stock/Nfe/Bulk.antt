-- ===== src/Stock/Nfe/Bulk.antt =====
-- services/app/src/modules/stock/nfe-import.ts: bulkCreateProductsFromNfeImport, which makes a product
-- of each item of an invoice that has none, within the plan's limit.
use estoque_saas.Base.{
  ℕ, zero, suc, ◌+◌, Bool, true, false, not, ◌&&◌, Option, none, some, List, [], ◌∷◌, ◌++◌, map,
  pos, Text, text_eq, truthy, opt_text_eq, is_some, or_else, ◌==◌, leb, if◌then◌else◌, find, any,
  select, length,
}
use estoque_saas.Shared.Errors.{validation_error, not_found}
use estoque_saas.Shared.PlanLimits.{PlanLimits, Resource, assert_within_plan_limit}
use estoque_saas.Shared.Transaction.{
  Action, Result, ok, err, crash, ◌>>=◌, ◌>>◌, pure, gets, modify, lift, or_throw, or_fail,
  throw_if, with_tenant,
}
use estoque_saas.Stock.Rows.{
  Product, NfeImport, NfeItem, NfeItemStatus, product, create, matched, created,
}
use estoque_saas.Stock.Db.{
  Db, record_audit, is_live, product_count, is_sku_taken, create_product_row,
}
use estoque_saas.Stock.Nfe.{find_import, items_of, is_pending_review, is_unmatched, update_item}
use estoque_saas.Stock.Nfe.Reading.{match_product, match_id}
use estoque_saas.Catalog.Csv.{trim}
use estoque_saas.Catalog.Products.{filled}
pub mod Counts
pub mod Missing
pub mod Linked
pub mod Creating

-- The key of an item: `ean:...`, `sku:...` or `item:...`.
pub data ItemKey : Type 0 where
  by_ean by_sku : Text → ItemKey
  by_item : ℕ → ItemKey

abbrev pub key_eq : ItemKey → ItemKey → Bool
key_eq (by_ean a) (by_ean b) = text_eq a b
key_eq (by_sku a) (by_sku b) = text_eq a b
key_eq (by_item a) (by_item b) = a == b
key_eq _ _ = false

abbrev pub key_without_ean : Text → ℕ → ItemKey
key_without_ean [] id = by_item id
key_without_ean (c ∷ cs) id = by_sku (c ∷ cs)

abbrev pub key_of : NfeItem → ItemKey
key_of i =
    if truthy i.c_ean then by_ean (or_else i.c_ean []) else key_without_ean (trim i.c_prod) i.id

-- The product of an item that is there already.
pub existing_product : NfeItem → Db → Option ℕ
existing_product i db =
    if truthy i.c_ean
    then match_id (match_product i.c_ean db)
    else if truthy (some (trim i.c_prod))
    then match_id (
        find
          (λ p. opt_text_eq p.sku (some (trim i.c_prod)) && (not (is_some p.barcode) && is_live p))
          db.products)
    else none

-- `orderBy: { id: "asc" }`
abbrev pub insert_item : NfeItem → List NfeItem → List NfeItem
insert_item i [] = i ∷ []
insert_item i (j ∷ js) =
    let rest = insert_item i js in if leb i.id j.id then i ∷ j ∷ js else j ∷ rest

abbrev pub sort_items : List NfeItem → List NfeItem
sort_items [] = []
sort_items (i ∷ is) = insert_item i (sort_items is)

-- What is resolved of an item before anything is created.
pub record Entry : Type 0 where
  pub item_id : ℕ
  pub product_id : Option ℕ
  pub key : ItemKey

abbrev pub entry_of : Db → NfeItem → Entry
entry_of db i = record { item_id = i.id; product_id = existing_product i db; key = key_of i }

abbrev pub has_key : ItemKey → List (ItemKey × NfeItem) → Bool
has_key k [] = false
has_key k ((j, i) ∷ rest) = if key_eq j k then true else has_key k rest

-- `toCreate`: of the items without a product, the first of each key, in their order.
pub to_create : Db → List (ItemKey × NfeItem) → List NfeItem → List (ItemKey × NfeItem)
to_create db chosen [] = chosen
to_create db chosen (i ∷ is) =
    to_create db
      (if not (is_some (existing_product i db)) && not (has_key (key_of i) chosen)
        then chosen ++ ((key_of i, i) ∷ [])
        else chosen)
      is

abbrev pub no_name : Text
no_name =
    80 ∷ 114 ∷ 111 ∷ 100 ∷ 117 ∷ 116 ∷ 111 ∷ 32 ∷ 115 ∷ 101 ∷ 109 ∷ 32 ∷ 110 ∷ 111 ∷ 109 ∷ 101 ∷ []

-- The row that is created of an item; a SKU that is in use is left out.
abbrev pub bulk_product : Option ℕ → NfeItem → Db → Product
bulk_product supplier i db = record {
  id = 0;
  sku = if is_sku_taken (filled (trim i.c_prod)) db.products then none else filled (trim i.c_prod);
  name = or_else (filled (trim i.x_prod)) (or_else (filled (trim i.c_prod)) no_name);
  category_id = none;
  unit_of_measure = 85 ∷ 78 ∷ [];
  barcode = i.c_ean;
  supplier_id = supplier;
  is_perishable = false;
  min_stock_global = pos 0;
  cost_price_cents = i.v_un_com_cents;
  sale_price_cents = pos 0;
  deleted_at = none;
}

-- The loop that creates the products: the product of each key.
pub create_each : ℕ → Option ℕ → List (ItemKey × NfeItem) → Action Db (List (ItemKey × ℕ))
create_each user supplier [] = pure []
create_each user supplier ((k, i) ∷ rest) = do
  row ← gets (bulk_product supplier i)
  id ← create_product_row row
  record_audit (some user) product id create
  others ← create_each user supplier rest
  pure ((k, id) ∷ others)

abbrev pub id_of : ItemKey → List (ItemKey × ℕ) → Option ℕ
id_of k [] = none
id_of k ((j, id) ∷ rest) = if key_eq j k then some id else id_of k rest

-- `entry.productId ?? createdByKey.get(entry.key)`
abbrev pub product_for : Entry → List (ItemKey × ℕ) → Option ℕ
product_for e made = if is_some e.product_id then e.product_id else id_of e.key made

abbrev pub linked_item : ℕ → NfeItemStatus → NfeItem → NfeItem
linked_item id status i = record i { matched_product_id = some id; status = status }

pub link_entry : Entry → Option ℕ → Action Db (Unit {0})
link_entry e none = pure tt
link_entry e (some id) =
    update_item e.item_id (linked_item id (if is_some e.product_id then matched else created))

-- The loop that links the items: how many were linked.
pub link_each : List (ItemKey × ℕ) → List Entry → Action Db ℕ
link_each made [] = pure 0
link_each made (e ∷ es) = do
  link_entry e (product_for e made)
  n ← link_each made es
  pure (if is_some (product_for e made) then suc n else n)

-- The limit is looked at only where something is to be created.
pub check_room : PlanLimits → ℕ → Action Db (Unit {0})
check_room limits zero = pure tt
check_room limits (suc n) = do
  current_count ← gets product_count
  lift (assert_within_plan_limit Resource.products current_count limits (suc n))

abbrev pub unmatched_items : ℕ → Db → List NfeItem
unmatched_items id db = sort_items (select (λ i. is_unmatched i.status) (items_of id db))

-- The transaction after its guards. Without an item to link it does nothing, and answers zero twice.
pub bulk_rows : PlanLimits → ℕ → NfeImport → List NfeItem → Action Db (ℕ × ℕ)
bulk_rows limits user imported items = do
  entries ← gets (λ db. map (entry_of db) items)
  chosen ← gets (λ db. to_create db [] items)
  check_room limits (length chosen)
  made ← create_each user imported.supplier_id chosen
  linked ← link_each made entries
  pure (length made, linked)

-- `bulkCreateProductsFromNfeImport`
unfoldable pub bulk_create_products : Option PlanLimits → ℕ → ℕ → Action Db (ℕ × ℕ)
bulk_create_products plan user id = or_fail plan >>= λ limits. with_tenant (do
  found ← gets (find_import id)
  imported ← or_throw found not_found
  throw_if (not (is_pending_review imported.status)) validation_error
  items ← gets (unmatched_items id)
  bulk_rows limits user imported items)

-- ===== src/Stock/Nfe.antt =====
-- services/app/src/modules/stock/nfe-import.ts: the review of an imported invoice (NF-e) and its
-- confirmation, which alone moves stock.
use estoque_saas.Base.{
  ℕ, suc, Bool, true, false, ◌&&◌, not, Option, none, some, List, [], ◌∷◌, ℤ, pos, Text, truthy,
  opt_text_eq, is_some, or_else, ◌==◌, if◌then◌else◌, find, any, select, update_where,
}
use estoque_saas.Shared.Errors.{validation_error, not_found, conflict}
use estoque_saas.Shared.Transaction.{
  Action, Result, ok, err, crash, ◌>>=◌, ◌>>◌, pure, gets, modify, or_throw, throw_if, with_tenant,
}
use estoque_saas.Stock.Rows.{
  Product, Batch, Movement, NfeImport, NfeItem, NfeStatus, NfeItemStatus, Supplier, entrada_nfe,
  stock_movement, nfe_import, create, update, pending_parse, pending_review, confirmed, discarded,
  failed, matched, unmatched, created,
}
use estoque_saas.Stock.Db.{Db, find_product, lock_stock_row, create_batch, record_audit}
use estoque_saas.Stock.Balance.{post_movement}
pub mod Reading
pub mod Review
pub mod Receive
pub mod Confirm
pub mod Bulk
pub mod Tests

abbrev pub find_import : ℕ → Db → Option NfeImport
find_import id db = find (λ i. i.id == id) db.nfe_imports

abbrev pub items_of : ℕ → Db → List NfeItem
items_of id db = select (λ i. i.nfe_import_id == id) db.nfe_items

abbrev pub is_pending_review : NfeStatus → Bool
is_pending_review pending_review = true
is_pending_review _ = false

abbrev pub is_confirmed : NfeStatus → Bool
is_confirmed confirmed = true
is_confirmed _ = false

abbrev pub is_unmatched : NfeItemStatus → Bool
is_unmatched unmatched = true
is_unmatched _ = false

abbrev pub update_import : ℕ → (NfeImport → NfeImport) → Action Db (Unit {0})
update_import id f =
    modify λ db. record db { nfe_imports = update_where (λ i. i.id == id) f db.nfe_imports }

abbrev pub update_item : ℕ → (NfeItem → NfeItem) → Action Db (Unit {0})
update_item id f =
    modify λ db. record db { nfe_items = update_where (λ i. i.id == id) f db.nfe_items }

-- `linkNfeImportItemToProduct`
unfoldable pub link_item_to_product : ℕ → ℕ → ℕ → Action Db (Unit {0})
link_item_to_product import_id item_id product_id = with_tenant (do
  found ← gets (find_import import_id)
  imported ← or_throw found not_found
  throw_if (not (is_pending_review imported.status)) validation_error
  found_item ←
      gets (λ db. find (λ i. (i.id == item_id) && (i.nfe_import_id == import_id)) db.nfe_items)
  item ← or_throw found_item not_found
  throw_if (not (is_unmatched item.status)) conflict
  found_product ←
      gets (λ db. find (λ p. (p.id == product_id) && not (is_some p.deleted_at)) db.products)
  product ← or_throw found_product not_found
  update_item item_id (λ i. record i { matched_product_id = some product.id; status = created }))

pub record Override : Type 0 where
  pub nfe_import_item_id : ℕ
  pub batch_number : Option Text
  pub expiry_date : Option ℕ

-- `new Map(itemOverrides.map(...)).get(itemId)`: the last override of an item counts.
abbrev last_override : ℕ → List Override → Option Override
last_override id [] = none
last_override id (o ∷ os) =
    let later = last_override id os in
    if is_some later then later else if o.nfe_import_item_id == id then some o else none

-- The batch of a perishable item with a batch number that is not empty and an expiry date.
pub received_batch : ℕ → Product → ℤ → Option Override → Action Db (Option ℕ)
received_batch store product quantity none = pure none
received_batch store product quantity (some o) = elim o.expiry_date [
  | none ↦ pure none
  | some expiry ↦
      if product.is_perishable && truthy o.batch_number
      then (do
        id ← create_batch (record {
          id = 0;
          product_id = product.id;
          store_id = store;
          batch_number = or_else o.batch_number [];
          expiry_date = expiry;
          quantity = quantity;
        })
        pure (some id))
      else pure none
]

-- What the loop of a confirmation reads from around it.
pub record Receipt : Type 0 where
  pub user : ℕ
  pub import_id : ℕ
  pub store : ℕ
  pub overrides : List Override

abbrev pub receipt_movement : Receipt → NfeItem → ℕ → Option ℕ → Movement
receipt_movement r item product batch = record {
  id = 0;
  product_id = product;
  store_id = r.store;
  batch_id = batch;
  kind = entrada_nfe;
  quantity = item.q_com;
  unit_cost_cents = some item.v_un_com_cents;
  reference_id = some r.import_id;
  created_by = r.user;
  metadata = none;
  balance_after = pos 0;
  created_at = 0;
}

pub receive_product : Receipt → NfeItem → Product → Action Db (Unit {0})
receive_product r item product = do
  lock_stock_row product.id r.store
  batch ← received_batch r.store product item.q_com (last_override item.id r.overrides)
  posted ← post_movement (receipt_movement r item product.id batch)
  record_audit (some r.user) stock_movement posted.0 create

-- The product of an item, if it is matched and the product is there.
abbrev pub product_of : NfeItem → Db → Option Product
product_of item db = elim item.matched_product_id [ none ↦ none | some id ↦ find_product id db ]

pub receive_item : Receipt → NfeItem → Action Db (Unit {0})
receive_item r item = do
  found ← gets (product_of item)
  elim found [ none ↦ pure tt | some product ↦ receive_product r item product ]

pub receive_items : Receipt → List NfeItem → Action Db (Unit {0})
receive_items r [] = pure tt
receive_items r (i ∷ is) = do receive_item r i; receive_items r is

abbrev pub receipt : ℕ → NfeImport → List Override → Receipt
receipt user i overrides = record {
  user = user;
  import_id = i.id;
  store = i.store_id;
  overrides = overrides;
}

abbrev pub confirm_import_row : ℕ → ℕ → NfeImport → NfeImport
confirm_import_row user now i = record i {
  status = confirmed;
  confirmed_by = some user;
  confirmed_at = some now;
}

-- The guards of a confirmation: the import, under review, with no item left unmatched.
pub confirmable : ℕ → Action Db NfeImport
confirmable id = do
  found ← gets (find_import id)
  imported ← or_throw found not_found
  throw_if (is_confirmed imported.status) conflict
  throw_if (not (is_pending_review imported.status)) validation_error
  items ← gets (items_of id)
  throw_if (any (λ i. is_unmatched i.status) items) conflict
  pure imported

-- The writes of a confirmation.
pub confirm_rows : ℕ → ℕ → NfeImport → List NfeItem → List Override → Action Db (Unit {0})
confirm_rows user now imported items overrides = do
  receive_items (receipt user imported overrides) items
  update_import imported.id (confirm_import_row user now)
  record_audit (some user) nfe_import imported.id update

-- `confirmNfeImport`, at the instant `now`.
unfoldable pub confirm_import : ℕ → ℕ → ℕ → List Override → Action Db (Unit {0})
confirm_import user now id overrides = with_tenant (do
  imported ← confirmable id
  items ← gets (items_of id)
  confirm_rows user now imported items overrides)

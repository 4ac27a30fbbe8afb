-- ===== src/Stock/Db.antt =====
-- The tenant's stock tables as a transaction sees them, and the Prisma calls of the stock and
-- catalog modules.
-- A table is a list of rows, the latest insertion first. `clock` is the time of the next insertion:
-- it passes between any two insertions, so that `created_at` orders them. `locks` is the trace of the
-- advisory locks taken, the latest first, and `categories` the identifiers of the categories.
use estoque_saas.Base.{
  ℕ, suc, Bool, true, false, ◌&&◌, not, ◌||◌, map, mem_nat, Option, none, some, List, ◌∷◌, ℤ, ◌+ℤ◌,
  ◌==◌, if◌then◌else◌, find, any, update_where, select, length, is_some, Text, opt_text_eq,
}
use estoque_saas.Shared.Transaction.{Action, ok, crash}
use estoque_saas.Stock.Rows.{
  Product, Batch, Movement, Sale, SaleItem, Transfer, TransferItem, NfeImport, NfeItem, Supplier,
  Audit, EntityType, AuditAction,
}

pub record Db : Type 0 where
  pub products : List Product
  pub batches : List Batch
  pub movements : List Movement
  pub sales : List Sale
  pub sale_items : List SaleItem
  pub transfers : List Transfer
  pub transfer_items : List TransferItem
  pub nfe_imports : List NfeImport
  pub nfe_items : List NfeItem
  pub suppliers : List Supplier
  pub categories : List ℕ
  pub audits : List Audit
  pub locks : List (ℕ × ℕ)
  pub next_id : ℕ
  pub clock : ℕ

-- `lockStockRow`: the lock of a product in a store.
unfoldable pub lock_stock_row : ℕ → ℕ → Action Db (Unit {0})
lock_stock_row product store db = (ok tt, record db { locks = (product, store) ∷ db.locks })

-- `recordAudit`
unfoldable pub record_audit : Option ℕ → EntityType → ℕ → AuditAction → Action Db (Unit {0})
record_audit user entity id action db = (
  ok tt,
  record db {
    audits =
        record { user_id = user; entity_type = entity; entity_id = id; action = action }
        ∷ db.audits;
  },
)

abbrev pub find_product : ℕ → Db → Option Product
find_product id db = find (λ p. p.id == id) db.products

abbrev pub find_batch : ℕ → Db → Option Batch
find_batch id db = find (λ b. b.id == id) db.batches

-- `tx.stockMovement.create`: the identifier and the time are the database's.
unfoldable pub create_movement : Movement → Action Db ℕ
create_movement m db = (
  ok db.next_id,
  record db {
    movements = record m { id = db.next_id; created_at = db.clock } ∷ db.movements;
    next_id = suc db.next_id;
    clock = suc db.clock;
  },
)

-- Whether there is a product with an identifier, deleted or not.
abbrev pub is_product : ℕ → Db → Bool
is_product id db = any (λ p. p.id == id) db.products

-- `tx.batch.create`, which throws where the batch's product is not there (`batches_product_id_fkey`).
unfoldable pub create_batch : Batch → Action Db ℕ
create_batch b db =
    if is_product b.product_id db
    then (
      ok db.next_id,
      record db { batches = record b { id = db.next_id } ∷ db.batches; next_id = suc db.next_id },
    )
    else (crash, db)

abbrev pub add_quantity : ℤ → Batch → Batch
add_quantity delta b = record b { quantity = b.quantity +ℤ delta }

-- `tx.batch.update({ where: { id }, data: { quantity: { increment } } })`, which throws where there
-- is no such batch; a decrement is an increment by the negated quantity.
unfoldable pub increment_batch : ℕ → ℤ → Action Db (Unit {0})
increment_batch id delta db =
    if any (λ b. b.id == id) db.batches
    then (
      ok tt,
      record db { batches = update_where (λ b. b.id == id) (add_quantity delta) db.batches },
    )
    else (crash, db)

-- `tx.sale.create` and `tx.saleItem.create`
unfoldable pub create_sale : Sale → Action Db ℕ
create_sale s db = (
  ok db.next_id,
  record db { sales = record s { id = db.next_id } ∷ db.sales; next_id = suc db.next_id },
)

unfoldable pub create_sale_item : SaleItem → Action Db (Unit {0})
create_sale_item i db = (ok tt, record db { sale_items = i ∷ db.sale_items })

-- `tx.transfer.create` and `tx.transferItem.create`
unfoldable pub create_transfer_row : Transfer → Action Db ℕ
create_transfer_row t db = (
  ok db.next_id,
  record db { transfers = record t { id = db.next_id } ∷ db.transfers; next_id = suc db.next_id },
)

unfoldable pub create_transfer_item : TransferItem → Action Db (Unit {0})
create_transfer_item i db = (ok tt, record db { transfer_items = i ∷ db.transfer_items })

abbrev pub is_live : Product → Bool
is_live p = not (is_some p.deleted_at)

-- `tx.product.count({ where: { deletedAt: null } })`
abbrev pub product_count : Db → ℕ
product_count db = length (select is_live db.products)

-- Whether a SKU that is not null is that of a product, deleted or not: `@@unique([tenantId, sku])`.
abbrev pub is_sku_taken : Option Text → List Product → Bool
is_sku_taken none ps = false
is_sku_taken (some sku) ps = any (λ p. opt_text_eq p.sku (some sku)) ps

-- Whether a reference is null or that of a row.
abbrev pub refers : List ℕ → Option ℕ → Bool
refers ids none = true
refers ids (some id) = mem_nat id ids

abbrev pub supplier_ids : Db → List ℕ
supplier_ids db = map (λ (s : Supplier). s.id) db.suppliers

-- Whether the category and the supplier of a product are there (`products_category_id_fkey`,
-- `products_supplier_id_fkey`).
unfoldable pub is_grounded : Product → Db → Bool
is_grounded p db = refers db.categories p.category_id && refers (supplier_ids db) p.supplier_id

-- `tx.product.create`, which throws where the SKU is taken or a reference dangles.
unfoldable pub create_product_row : Product → Action Db ℕ
create_product_row p db =
    if is_sku_taken p.sku db.products || not (is_grounded p db) then (crash, db) else (
      ok db.next_id,
      record db { products = record p { id = db.next_id } ∷ db.products; next_id = suc db.next_id },
    )

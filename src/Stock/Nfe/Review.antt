-- ===== src/Stock/Nfe/Review.antt =====
-- Before the confirmation no stock moves.
use estoque_saas.Base.{ℕ, ◌≡◌, refl, Option, none, some, List, [], ◌∷◌, arith, Text}
use estoque_saas.Shared.Fixes.{
  Fixes, pure-Fixes, gets-Fixes, or_throw-Fixes, throw_if-Fixes, modify-Fixes, bind-Fixes,
  with_tenant-Fixes, fixes, Option-Fixes,
}
use estoque_saas.Stock.Rows.{NfeImport, Movement, Batch}
use estoque_saas.Stock.Db.{Db}
use estoque_saas.Stock.Nfe.{find_import, link_item_to_product}
use estoque_saas.Stock.Nfe.Reading.{
  ParsedItem, Parsing, parsed, unreadable, store_item, store_items, process_parsed,
  process_import_job, upload_import, ensure_supplier,
}

-- The tables that hold the stock, and the time of their next insertion.
abbrev pub stock_part : Db → List Movement × List Batch × ℕ
stock_part db = (db.movements, db.batches, db.clock)

ensure_supplier-Fixes :
    (s : Option ℕ) (cnpj name : Option Text) → Fixes stock_part (ensure_supplier s cnpj name)
unfolding ensure_supplier
ensure_supplier-Fixes (some id) cnpj name = fixes stock_part _ λ db. refl
ensure_supplier-Fixes none cnpj name = fixes stock_part _ λ db. ground arith

store_item-Fixes : (id : ℕ) (p : ParsedItem) → Fixes stock_part (store_item id p)
unfolding store_item
store_item-Fixes id p = fixes stock_part _ λ db. refl

store_items-Fixes : (id : ℕ) (ps : List ParsedItem) → Fixes stock_part (store_items id ps)
unfolding store_items
store_items-Fixes id [] = pure-Fixes stock_part tt
store_items-Fixes id (p ∷ ps) =
    bind-Fixes stock_part (store_item id p) _ (store_item-Fixes id p) λ _. store_items-Fixes id ps

process_parsed-Fixes :
    (id : ℕ) (i : NfeImport) (p : Parsing) → Fixes stock_part (process_parsed id i p)
unfolding process_parsed
process_parsed-Fixes id i (parsed p) =
    bind-Fixes stock_part (ensure_supplier _ _ _) _ (ensure_supplier-Fixes _ _ _) λ supplier.
      bind-Fixes stock_part (store_items id p.items) _ (store_items-Fixes id p.items)
        λ _. modify-Fixes stock_part _ λ db. refl
process_parsed-Fixes id i (unreadable message) = modify-Fixes stock_part _ λ db. refl

-- Uploading an invoice, parsing it, whether the file is readable or not, and linking one of its
-- items to a product create no movement and no batch and change none.
pub import_moves_no_stock :
    (import_id item product store file : ℕ) (p : Parsing) (db : Db)
    → (stock_part (upload_import store file db).1 ≡ stock_part db)
      × (stock_part (process_import_job import_id p db).1 ≡ stock_part db)
      × (stock_part (link_item_to_product import_id item product db).1 ≡ stock_part db)
unfolding upload_import process_import_job link_item_to_product
import_moves_no_stock import_id item product store file p db = (
  refl,
  (with_tenant-Fixes stock_part _ (
        bind-Fixes stock_part _ _ (gets-Fixes stock_part (find_import import_id)) λ found.
          Option-Fixes stock_part _ (λ i. process_parsed import_id i p) found
            (pure-Fixes stock_part tt) λ i. process_parsed-Fixes import_id i p)).at_state
      db,
  (with_tenant-Fixes stock_part _ (
        bind-Fixes stock_part _ _ (gets-Fixes stock_part _) λ found.
          bind-Fixes stock_part _ _ (or_throw-Fixes stock_part found _) λ i.
            bind-Fixes stock_part _ _ (throw_if-Fixes stock_part _ _) λ _.
              bind-Fixes stock_part _ _ (gets-Fixes stock_part _) λ found_item.
                bind-Fixes stock_part _ _ (or_throw-Fixes stock_part found_item _) λ it.
                  bind-Fixes stock_part _ _ (throw_if-Fixes stock_part _ _) λ _.
                    bind-Fixes stock_part _ _ (gets-Fixes stock_part _) λ found_product.
                      bind-Fixes stock_part _ _ (or_throw-Fixes stock_part found_product _)
                        λ pr. modify-Fixes stock_part _ λ db. refl)).at_state
      db,
)

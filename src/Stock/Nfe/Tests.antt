-- ===== src/Stock/Nfe/Tests.antt =====
-- An import of an invoice, from its review to its confirmation, on a small shop.
use estoque_saas.Base.{All, List, ◌≡◌, refl, none, some, [], ◌∷◌, pos, ◌+◌, ◌<◌, ◌≤◌, length}
use estoque_saas.Shared.Errors.{conflict, plan_limit_reached}
use estoque_saas.Shared.PlanLimits.{PlanLimits}
use estoque_saas.Shared.Transaction.{ok, err, with_tenant, ◌>>=◌, throw_if, modify}
use estoque_saas.Stock.Rows.{NfeImport, NfeItem, pending_review, matched, unmatched}
use estoque_saas.Stock.Db.{product_count, Db, lock_stock_row, record_audit, create_movement}
use estoque_saas.Stock.Balance.{post_movement}
use estoque_saas.Stock.Balance.Posts.{Outcome}
use estoque_saas.Stock.Tests.{empty_shop, shop, shop-IsConsistent}
use estoque_saas.Stock.Nfe.{
  confirm_import, confirmable, confirm_rows, receive_items, receive_item, receive_product,
  received_batch, items_of,
}
use estoque_saas.Stock.Nfe.Bulk.{ItemKey, unmatched_items, bulk_create_products}
use estoque_saas.Stock.Nfe.Bulk.Missing.{AreMissing}
use estoque_saas.Stock.Nfe.Bulk.Linked.{IsLinked}
use estoque_saas.Stock.Nfe.Bulk.Creating.{bulk_create_products_lem}
use estoque_saas.Stock.Nfe.Receive.{received}
use estoque_saas.Stock.Nfe.Confirm.{confirm_import-Outcome, confirm_import_once}

abbrev invoice : NfeImport
invoice = record {
  id = 40;
  store_id = 1;
  supplier_id = none;
  access_key = none;
  file_ref = 3;
  status = pending_review;
  error_message = none;
  confirmed_by = none;
  confirmed_at = none;
}

abbrev invoice_item : NfeItem
invoice_item = record {
  id = 41;
  nfe_import_id = 40;
  c_prod = [];
  c_ean = none;
  x_prod = [];
  ncm = none;
  q_com = pos 6;
  v_un_com_cents = pos 90;
  matched_product_id = some 1;
  status = matched;
}

-- A shop with an invoice under review.
abbrev reviewing : Db → Db
reviewing db = record db { nfe_imports = invoice ∷ []; nfe_items = invoice_item ∷ [] }

confirm_import-Outcome_example :
    Outcome
      (reviewing shop)
      (received 1 (reviewing shop) (items_of 40 (reviewing shop)))
      (confirm_import 7 9 40 [] (reviewing shop))
confirm_import-Outcome_example =
    confirm_import-Outcome 7 9 40 [] (reviewing shop) shop-IsConsistent invoice refl

confirms : (confirm_import 7 9 40 [] (reviewing empty_shop)).0 ≡ ok tt
unfolding confirm_import confirmable confirm_rows receive_items receive_item receive_product
    received_batch with_tenant lock_stock_row record_audit post_movement create_movement ◌>>=◌
    throw_if modify
confirms = refl

-- Other operations have come in between.
abbrev later : Db
later =
    let db = (confirm_import 7 9 40 [] (reviewing empty_shop)).1 in
    record db { next_id = 500; clock = 600 }

confirm_import_once_example : confirm_import 8 10 40 [] later ≡ (err conflict, later)
confirm_import_once_example =
    confirm_import_once 7 9 40 [] (reviewing empty_shop) invoice refl confirms later refl 8 10 []

abbrev unknown_item : NfeItem
unknown_item = record invoice_item { matched_product_id = none; status = unmatched }

abbrev unmatched_shop : Db
unmatched_shop = record empty_shop {
  nfe_imports = invoice ∷ [];
  nfe_items = unknown_item ∷ record unknown_item { id = 42 } ∷ [];
}

abbrev small_plan : PlanLimits
small_plan = record { max_products = 2; max_users = 1; max_stores = 1 }

bulk_create_products_lem_example :
    let items = unmatched_items 40 unmatched_shop in
    let run = bulk_create_products (some small_plan) 7 40 unmatched_shop in
    (missing : List ItemKey) × AreMissing unmatched_shop items missing
    × (0 < length missing
        → 2 < product_count unmatched_shop + length missing
        → run ≡ (err plan_limit_reached, unmatched_shop))
    × ((0 < length missing → product_count unmatched_shop + length missing ≤ 2)
        → (run.0 ≡ ok (length missing, length items))
          × (product_count run.1 ≡ product_count unmatched_shop + length missing)
          × All (λ (x : NfeItem). IsLinked run.1 x.id) items)
bulk_create_products_lem_example =
    bulk_create_products_lem small_plan 7 40 invoice unmatched_shop refl refl refl

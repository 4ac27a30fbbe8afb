-- ===== src/Stock/Nfe/Reading.antt =====
-- services/app/src/modules/stock/nfe-import.ts: the upload of an invoice and the job that parses it.
use estoque_saas.Base.{
  ℕ, suc, ◌&&◌, not, Option, none, some, List, [], ◌∷◌, ℤ, Text, truthy, opt_text_eq, is_some,
  or_else, if◌then◌else◌, find,
}
use estoque_saas.Shared.Transaction.{Action, ok, ◌>>=◌, ◌>>◌, pure, gets, with_tenant}
use estoque_saas.Stock.Rows.{
  Product, NfeImport, pending_parse, pending_review, failed, matched, unmatched,
}
use estoque_saas.Stock.Db.{Db}
use estoque_saas.Stock.Nfe.{find_import, update_import}

-- `uploadNfeImport`, on the reference that the file storage answered.
unfoldable pub upload_import : ℕ → ℕ → Action Db ℕ
upload_import store file db = (
  ok db.next_id,
  record db {
    nfe_imports =
        record {
          id = db.next_id;
          store_id = store;
          supplier_id = none;
          access_key = none;
          file_ref = file;
          status = pending_parse;
          error_message = none;
          confirmed_by = none;
          confirmed_at = none;
        }
        ∷ db.nfe_imports;
    next_id = suc db.next_id;
  },
)

-- What `parseNfeXml` answers.
pub record ParsedItem : Type 0 where
  pub c_prod : Text
  pub c_ean : Option Text
  pub x_prod : Text
  pub ncm : Option Text
  pub q_com : ℤ
  pub v_un_com_cents : ℤ

pub record ParsedNfe : Type 0 where
  pub access_key : Option Text
  pub supplier_cnpj : Option Text
  pub supplier_name : Option Text
  pub items : List ParsedItem

-- The supplier with the invoice's CNPJ, created where there is none.
unfoldable pub ensure_supplier : Option ℕ → Option Text → Option Text → Action Db (Option ℕ)
ensure_supplier (some id) cnpj name db = (ok (some id), db)
ensure_supplier none cnpj name db =
    if not (truthy cnpj)
    then (ok none, db)
    else elim (find (λ s. opt_text_eq s.cnpj cnpj) db.suppliers) [
      | some s ↦ (ok (some s.id), db)
      | none ↦ (
        ok (some db.next_id),
        record db {
          suppliers =
              record { id = db.next_id; name = or_else name (or_else cnpj []); cnpj = cnpj }
              ∷ db.suppliers;
          next_id = suc db.next_id;
        },
      )
    ]

-- The product whose bar code is the item's.
abbrev pub match_product : Option Text → Db → Option Product
match_product ean db =
    if truthy ean
    then find (λ p. opt_text_eq p.barcode ean && not (is_some p.deleted_at)) db.products
    else none

abbrev pub match_id : Option Product → Option ℕ
match_id none = none
match_id (some p) = some p.id

unfoldable pub store_item : ℕ → ParsedItem → Action Db (Unit {0})
store_item import_id p db =
    let found = match_product p.c_ean db in
    (
      ok tt,
      record db {
        nfe_items =
            record {
              id = db.next_id;
              nfe_import_id = import_id;
              c_prod = p.c_prod;
              c_ean = p.c_ean;
              x_prod = p.x_prod;
              ncm = p.ncm;
              q_com = p.q_com;
              v_un_com_cents = p.v_un_com_cents;
              matched_product_id = match_id found;
              status = if is_some found then matched else unmatched;
            }
            ∷ db.nfe_items;
        next_id = suc db.next_id;
      },
    )

unfoldable pub store_items : ℕ → List ParsedItem → Action Db (Unit {0})
store_items import_id [] = pure tt
store_items import_id (p ∷ ps) = do store_item import_id p; store_items import_id ps

-- Reading and parsing the file: the parsed invoice, or the message of the exception, which the job
-- catches. The steps after it insert and update rows, and do not throw.
pub data Parsing : Type 0 where
  parsed : ParsedNfe → Parsing
  unreadable : Text → Parsing

unfoldable pub process_parsed : ℕ → NfeImport → Parsing → Action Db (Unit {0})
process_parsed id imported (parsed p) = do
  supplier ← ensure_supplier imported.supplier_id p.supplier_cnpj p.supplier_name
  store_items id p.items
  update_import id
      (λ i. record i { status = pending_review; access_key = p.access_key; supplier_id = supplier })
process_parsed id imported (unreadable message) =
    update_import id (λ i. record i { status = failed; error_message = some message })

-- `processNfeImportJob`
unfoldable pub process_import_job : ℕ → Parsing → Action Db (Unit {0})
process_import_job id parsing = with_tenant (do
  found ← gets (find_import id)
  elim found [ none ↦ pure tt | some imported ↦ process_parsed id imported parsing ])

-- ===== src/Catalog/Tests.antt =====
-- Lines of a CSV text, a small catalog, and bar codes.
use estoque_saas.Base.{
  ℕ, ◌+◌, ◌≡◌, ◌≢◌, refl, Option, none, some, List, [], ◌∷◌, ◌++◌, map, length, All, Text, pos,
  arith,
}
use estoque_saas.Shared.PlanLimits.{PlanLimits}
use estoque_saas.Shared.Transaction.{ok, crash, ◌>>=◌, with_tenant}
use estoque_saas.Stock.Db.{Db, is_grounded, product_count, create_product_row, record_audit}
use estoque_saas.Stock.Balance.{current_stock, stores_of}
use estoque_saas.Stock.Tests.{rice, empty_shop}
use estoque_saas.Catalog.Products.{
  ProductInput, ProductUpdateInput, update_product, update_product_row, with_current_stock,
  process_products_csv_job, import_rows, import_one, import_row, reference,
}
use estoque_saas.Catalog.Products.Counts.{process_products_csv_job_lem}
use estoque_saas.Catalog.Products.Skus.{update_product-same_sku}
use estoque_saas.Catalog.Labels.{make_ean13}
use estoque_saas.Catalog.Labels.Codes.{IsEan13, make_ean13_lem}
use estoque_saas.Catalog.Csv.{
  trim, parse_rows, columns, parse_products_csv, parse_lines, split_lines, parse_csv_line, scan,
  trim_start, trim_end, field,
}
use estoque_saas.Catalog.Csv.Lines.{print_line, parse_csv_line-print_line}
use estoque_saas.Catalog.Csv.Products.{parse_rows_lem, IsNamed}

-- The fields `a,"` and `b`.
parse_csv_line-print_line_example :
    parse_csv_line (print_line (97 ∷ 44 ∷ 34 ∷ []) ((98 ∷ []) ∷ []))
    ≡ map trim ((97 ∷ 44 ∷ 34 ∷ []) ∷ (98 ∷ []) ∷ [])
parse_csv_line-print_line_example = parse_csv_line-print_line (97 ∷ 44 ∷ 34 ∷ []) ((98 ∷ []) ∷ [])

abbrev header : List (List ℕ)
header = columns.name ∷ columns.unit_of_measure ∷ []

-- The lines `a,b` and `a`.
abbrev body : List (List ℕ)
body = (97 ∷ 44 ∷ 98 ∷ []) ∷ (97 ∷ []) ∷ []

parse_rows_lem_example :
    (length (parse_rows header 2 body).rows + length (parse_rows header 2 body).errors
      ≡ length body)
    × All IsNamed (parse_rows header 2 body).rows
parse_rows_lem_example = parse_rows_lem header 2 body

abbrev beans : ProductInput
beans = record {
  sku = some (70 ∷ []);
  name = 66 ∷ [];
  category_id = none;
  unit_of_measure = 85 ∷ [];
  barcode = none;
  supplier_id = none;
  is_perishable = none;
  min_stock_global = none;
  cost_price_cents = none;
  sale_price_cents = none;
}

abbrev free_plan : PlanLimits
free_plan = record { max_products = 5; max_users = 1; max_stores = 1 }

-- The header and the line `a,b`.
abbrev file : Text
file = columns.name ++ ((44 ∷ columns.unit_of_measure) ++ (10 ∷ 97 ∷ 44 ∷ 98 ∷ []))

abbrev no_reference : Text → Option ℕ
no_reference t = none

imports : (process_products_csv_job no_reference file empty_shop).0 ≡ ok (1, 0)
unfolding process_products_csv_job import_rows import_one import_row reference create_product_row
    is_grounded parse_products_csv parse_lines parse_rows split_lines parse_csv_line scan trim
    trim_start trim_end field with_tenant ◌>>=◌
imports = refl

process_products_csv_job_lem_example :
    (1 + 0 ≡ length (parse_products_csv file).rows)
    × (product_count (process_products_csv_job no_reference file empty_shop).1
        ≡ product_count empty_shop + 1)
process_products_csv_job_lem_example =
    process_products_csv_job_lem no_reference file empty_shop 1 0 imports

abbrev same : ProductUpdateInput
same = record {
  sku = none;
  name = none;
  category_id = none;
  unit_of_measure = none;
  barcode = none;
  supplier_id = none;
  is_perishable = none;
  min_stock_global = none;
  cost_price_cents = none;
  sale_price_cents = none;
}

-- Two products, each with a SKU.
abbrev two : Db
two = record empty_shop {
  products =
      record rice { sku = some (65 ∷ []) } ∷ record rice { id = 2; sku = some (66 ∷ []) } ∷ [];
}

clears :
    (update_product 7 1 (record same { sku = some [] }) two).0
    ≡ ok (record rice { sku = some [] }, pos 0)
unfolding update_product update_product_row is_grounded record_audit with_current_stock
    current_stock stores_of with_tenant ◌>>=◌
clears = refl

update_product-same_sku_example :
    let after = (update_product 7 1 (record same { sku = some [] }) two).1 in
    update_product 7 2 (record same { sku = some [] }) after ≡ (crash, after)
update_product-same_sku_example =
    update_product-same_sku 7 1 2 [] same same (record rice { sku = some (65 ∷ []) })
      (record rice { id = 2; sku = some (66 ∷ []) }) two (record rice { sku = some [] }, pos 0)
      (omega arith) refl refl clears

abbrev ones : Text
ones = 49 ∷ 49 ∷ 49 ∷ 49 ∷ 49 ∷ 49 ∷ 49 ∷ 49 ∷ 49 ∷ 49 ∷ 49 ∷ 49 ∷ []

make_ean13_lem_example :
    IsEan13 (make_ean13 ones)
    × ((a b : Text) (d e : ℕ) → make_ean13 ones ≡ a ++ (d ∷ b) → d ≢ e → ¬ IsEan13 (a ++ (e ∷ b)))
make_ean13_lem_example = make_ean13_lem ones (record { sized = refl; digits = omega arith })

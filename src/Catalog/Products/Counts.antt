-- ===== src/Catalog/Products/Counts.antt =====
-- How many products there are after a product is created, and after a file is imported.
use estoque_saas.Base.{
  ℕ, suc, ◌+◌, ◌≡◌, refl, ap, ◌∙◌, ◌||◌, not, inl, inr, Bool, true, false, Option, none, some, List,
  [], ◌∷◌, arith, length, is_some, Bool-cases, Option-cases, Text,
}
use estoque_saas.Shared.PlanLimits.{PlanLimits}
use estoque_saas.Shared.Transaction.{
  Result, ok, ◌>>=◌, ◌>>◌, pure, gets, or_fail, with_tenant_ok, continue, bind_ok,
}
use estoque_saas.Stock.Rows.{Product}
use estoque_saas.Stock.Db.{
  Db, is_live, product_count, is_sku_taken, is_grounded, create_product_row,
}
use estoque_saas.Catalog.Csv.{CsvProductRow, parse_products_csv}
use estoque_saas.Catalog.Products.{
  existing_row, reference, import_row, import_one, import_rows, tally, process_products_csv_job,
}

create_product_row-product_count :
    (p : Product) (db : Db) (id : ℕ)
    → is_live p ≡ true
    → (create_product_row p db).0 ≡ ok id
    → product_count (create_product_row p db).1 ≡ suc (product_count db)
unfolding create_product_row
create_product_row-product_count p db id l e =
    elim (Bool-cases (is_sku_taken p.sku db.products || not (is_grounded p db))) [
      | inl t ↦ cc (rw t at e)
      | inr t ↦ rw t (rw l refl)
    ]

module _ (identify : Text → Option ℕ) where
  reference-state : (t : Option Text) (db : Db) → (reference identify t db).1 ≡ db
  unfolding reference ◌>>=◌ continue or_fail pure
  reference-state none db = refl
  reference-state (some t) db = elim (Option-cases (identify t)) [
    | inl e ↦ rw e refl
    | inr (id, e) ↦ rw e refl
  ]

  import_row-product_count :
      (row : CsvProductRow) (db : Db)
      → (import_row identify row db).0 ≡ ok tt
      → product_count (import_row identify row db).1 ≡ suc (product_count db)
  unfolding import_row pure
  import_row-product_count row db e =
      let one = bind_ok (reference identify row.category_id) _ db tt e in
      let two = bind_ok (reference identify row.supplier_id) _ _ tt one.2 in
      let three = bind_ok (create_product_row _) _ _ tt two.2 in
      let counted = create_product_row-product_count _ _ three.0 refl three.1 in
      ap (λ (r : Result (Unit {0}) × Db). product_count r.1) (one.3 ∙ two.3 ∙ three.3)
      ∙ (counted
          ∙ ap (λ (d : Db). suc (product_count d))
              (reference-state row.supplier_id (reference identify row.category_id db).1
                ∙ reference-state row.category_id db))

  import_new :
      (row : CsvProductRow) (db : Db) (made : Bool)
      → ((import_row identify row >> pure true) db).0 ≡ ok made
      → product_count ((import_row identify row >> pure true) db).1
        ≡ product_count db + (tally identify made (0, 0)).0
  unfolding pure
  import_new row db made e =
      let one = bind_ok (import_row identify row) (λ _. pure true) db made e in
      let counted = import_row-product_count row db one.1 in
      let yes_made : made ≡ true = cc one.2 in
      ap (λ (r : Result Bool × Db). product_count r.1) one.3 ∙ (counted ∙ rw yes_made (omega arith))

  import_one-product_count :
      (row : CsvProductRow) (db : Db) (made : Bool)
      → (import_one identify row db).0 ≡ ok made
      → product_count (import_one identify row db).1
        ≡ product_count db + (tally identify made (0, 0)).0
  unfolding import_one ◌>>=◌ continue gets pure
  import_one-product_count row db made e = elim (Bool-cases (is_some (existing_row row db))) [
    | inl there ↦
        let skipped : made ≡ false = cc (rw there at e) in rw there (rw skipped (omega arith))
    | inr new ↦ rw new (import_new row db made (rw new at e))
  ]

  add_up :
      (made : Bool) (c k created skipped n before middle after : ℕ)
      → ◌≡◌ {A = Result (ℕ × ℕ)} (ok (tally identify made (c, k))) (ok (created, skipped))
      → c + k ≡ n
      → middle ≡ before + (tally identify made (0, 0)).0
      → after ≡ middle + c
      → (created + skipped ≡ suc n) × (after ≡ before + created)
  add_up made c k created skipped n before middle after e h first rest = ground arith

  import_rows-product_count :
      (rows : List CsvProductRow) (db : Db) (created skipped : ℕ)
      → (import_rows identify rows db).0 ≡ ok (created, skipped)
      → (created + skipped ≡ length rows)
        × (product_count (import_rows identify rows db).1 ≡ product_count db + created)
  unfolding import_rows pure
  import_rows-product_count [] db created skipped e = ground arith
  import_rows-product_count (row ∷ rows) db created skipped e =
      let one = bind_ok (import_one identify row) _ db (created, skipped) e in
      let two = bind_ok (import_rows identify rows) _ _ (created, skipped) one.2 in
      let first = import_one-product_count row db one.0 one.1 in
      let (c, k) = two.0 in
      let rest = import_rows-product_count rows (import_one identify row db).1 c k two.1 in
      rw (one.3 ∙ two.3) (
        add_up one.0 c k created skipped (length rows) (product_count db)
          (product_count (import_one identify row db).1) _ two.2 rest.0 first rest.1)

  -- A file that is imported to its end: each of its rows is counted once, as created or as skipped, and
  -- there are as many products more as were created, whatever the plan allows.
  pub process_products_csv_job_lem :
      (text : Text) (db : Db) (created skipped : ℕ)
      → (process_products_csv_job identify text db).0 ≡ ok (created, skipped)
      → (created + skipped ≡ length (parse_products_csv text).rows)
        × (product_count (process_products_csv_job identify text db).1 ≡ product_count db + created)
  unfolding process_products_csv_job
  process_products_csv_job_lem text db created skipped e =
      let committed =
        with_tenant_ok (import_rows identify (parse_products_csv text).rows) db (created, skipped)
          e in
      rw committed.0
        (import_rows-product_count (parse_products_csv text).rows db created skipped committed.1)

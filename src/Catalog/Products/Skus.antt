-- ===== src/Catalog/Products/Skus.antt =====
-- The SKU of a product is its own, the empty text included.
use estoque_saas.Base.{
  ℕ, ◌≡◌, ◌≢◌, refl, ◌∙◌, inl, inr, Bool, true, false, not, ◌&&◌, some, List, [], ◌∷◌, arith, ℤ,
  Text, text_eq_iff, opt_text_eq, ◌==◌, find, any, update_where, Bool-cases,
}
use estoque_saas.Shared.Transaction.{
  ok, crash, ◌>>=◌, gets, or_throw, with_tenant, continue, settle,
}
use estoque_saas.Stock.Rows.{Product}
use estoque_saas.Stock.Db.{Db, is_live, is_grounded, record_audit}
use estoque_saas.Catalog.Products.{
  ProductUpdateInput, revised, find_live, update_product_row, update_product, with_current_stock,
}

abbrev live_at : ℕ → Product → Bool
live_at id p = (p.id == id) && is_live p

-- Another product than `id` has the SKU.
abbrev clashes : ℕ → Text → Product → Bool
clashes id sku q = not (q.id == id) && opt_text_eq q.sku (some sku)

find-update_where :
    (a b : ℕ) (p : Product) (ps : List Product)
    → a ≢ b
    → p.id ≡ a
    → find (live_at b) (update_where (λ q. q.id == a) (λ q. p) ps) ≡ find (live_at b) ps
find-update_where a b p [] ne e = refl
find-update_where a b p (x ∷ xs) ne e = ground (arith, find-update_where a b p xs ne e)

clashes-update_where :
    (a b : ℕ) (sku : Text) (p old : Product) (ps : List Product)
    → a ≢ b
    → p.id ≡ a
    → p.sku ≡ some sku
    → find (live_at a) ps ≡ some old
    → any (clashes b sku) (update_where (λ q. q.id == a) (λ q. p) ps) ≡ true
clashes-update_where a b sku p old [] ne e s f = cc
clashes-update_where a b sku p old (x ∷ xs) ne e s f =
    ground (arith, clashes-update_where a b sku p old xs ne e s, text_eq_iff sku sku)

find-id : (a : ℕ) (old : Product) (ps : List Product) → find (live_at a) ps ≡ some old → old.id ≡ a
find-id a old [] f = cc
find-id a old (x ∷ xs) f = ground (arith, find-id a old xs)

taken_sku_fails :
    (user id : ℕ) (sku : Text) (input : ProductUpdateInput) (p : Product) (db : Db)
    → find_live id db ≡ some p
    → any (clashes id sku) db.products ≡ true
    → update_product user id (record input { sku = some sku }) db ≡ (crash, db)
unfolding update_product update_product_row ◌>>=◌ continue gets or_throw with_tenant settle
taken_sku_fails user id sku input p db f c = rw (f, c) refl

free_sku_writes :
    (user id : ℕ) (sku : Text) (input : ProductUpdateInput) (p : Product) (db : Db)
    → find_live id db ≡ some p
    → any (clashes id sku) db.products ≡ false
    → is_grounded (revised (record input { sku = some sku }) p) db ≡ true
    → (update_product user id (record input { sku = some sku }) db).1.products
      ≡ update_where
          (λ q. q.id == id)
          (λ q. revised (record input { sku = some sku }) p)
          db.products
unfolding update_product update_product_row record_audit with_current_stock ◌>>=◌ continue gets
    or_throw with_tenant settle
free_sku_writes user id sku input p db f c g = rw f (rw (c, g) refl)

dangling_fails :
    (user id : ℕ) (sku : Text) (input : ProductUpdateInput) (p : Product) (db : Db)
    → find_live id db ≡ some p
    → any (clashes id sku) db.products ≡ false
    → is_grounded (revised (record input { sku = some sku }) p) db ≡ false
    → update_product user id (record input { sku = some sku }) db ≡ (crash, db)
unfolding update_product update_product_row ◌>>=◌ continue gets or_throw with_tenant settle
dangling_fails user id sku input p db f c g = rw f (rw (c, g) refl)

-- A SKU is one product's at a time, and the empty text counts as one: when a product has been updated
-- to a SKU, updating another product to the same SKU fails as an internal error and changes no table,
-- also where both updates only clear the SKU with the empty text.
pub update_product-same_sku :
    (user a b : ℕ) (sku : Text) (x y : ProductUpdateInput) (p q : Product) (db : Db)
    (answer : Product × ℤ)
    → a ≢ b
    → find_live a db ≡ some p
    → find_live b db ≡ some q
    → (update_product user a (record x { sku = some sku }) db).0 ≡ ok answer
    → let after = (update_product user a (record x { sku = some sku }) db).1 in
      update_product user b (record y { sku = some sku }) after ≡ (crash, after)
update_product-same_sku user a b sku x y p q db answer ne f g e =
    elim (Bool-cases (any (clashes a sku) db.products)) [
      | inl c ↦ cc (rw (taken_sku_fails user a sku x p db f c) at e)
      | inr c ↦
          let new = revised (record x { sku = some sku }) p in
          let after = (update_product user a (record x { sku = some sku }) db).1 in
          let named = find-id a p db.products f in
          elim (Bool-cases (is_grounded new db)) [
            | inr d ↦ cc (rw (dangling_fails user a sku x p db f c d) at e)
            | inl d ↦
                let written = free_sku_writes user a sku x p db f c d in
                taken_sku_fails user b sku y q after
                  (rw written (find-update_where a b new db.products ne named ∙ g))
                  (rw written (clashes-update_where a b sku new p db.products ne named refl f))
          ]
    ]

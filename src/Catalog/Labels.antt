-- ===== src/Catalog/Labels.antt =====
-- services/app/src/modules/catalog/products.ts: bar codes (EAN-13) for labels.
use estoque_saas.Base.{
  ℕ, zero, suc, ◌+◌, ◌-◌, ◌*◌, ◌%◌, Bool, true, false, not, ◌&&◌, Option, none, some, List, [], ◌∷◌,
  ◌++◌, Text, opt_text_eq, truthy, ◌==◌, if◌then◌else◌, any, select, update_where, mem_nat, length,
}
use estoque_saas.Shared.Errors.{not_found}
use estoque_saas.Shared.Transaction.{
  Action, Result, ok, err, crash, ◌>>=◌, ◌>>◌, pure, gets, modify, or_fail, throw_if, with_tenant,
}
use estoque_saas.Stock.Rows.{Product}
use estoque_saas.Stock.Db.{Db, is_live}
pub mod Codes

-- The sum of the digits of a text, with the weights 1 and 3 in turn; `odd` starts with 3.
unfoldable pub weigh : Bool → Text → ℕ
weigh odd [] = 0
weigh odd (c ∷ cs) = (c - b'0') * (if odd then 3 else 1) + weigh (not odd) cs

-- `makeEan13` of the twelve random digits.
unfoldable pub make_ean13 : Text → Text
make_ean13 body = body ++ ((b'0' + (10 - weigh false body % 10) % 10) ∷ [])

abbrev pub has_barcode : Text → Product → Bool
has_barcode code p = opt_text_eq p.barcode (some code)

-- The attempts at a code that no product has: how many are left, and which is next. `draw` is what
-- `String(randomInt(...))` gives in each.
unfoldable pub reserve : (ℕ → Text) → ℕ → ℕ → List Product → Option Text
reserve draw zero k ps = none
reserve draw (suc n) k ps = elim (any (has_barcode (make_ean13 (draw k))) ps) [
  | true ↦ reserve draw n (suc k) ps
  | false ↦ some (make_ean13 (draw k))
]

pub record ProductLabel : Type 0 where
  pub id : ℕ
  pub name : Text
  pub sku : Option Text
  pub barcode : Text

abbrev pub coded : Text → Product → Product
coded code p = record p { barcode = some code }

-- The draws are those of each product.
module _ (draw : ℕ → ℕ → Text) where
  pub label_barcode : ℕ → Option Text → Action Db Text
  label_barcode id (some (c ∷ cs)) = pure (c ∷ cs)
  label_barcode id _ = do
    found ← gets (λ db. reserve (draw id) 20 0 db.products)
    code ← or_fail found
    modify λ db. record db { products = update_where (λ p. p.id == id) (coded code) db.products }
    pure code

  pub label_products : List Product → Action Db (List ProductLabel)
  label_products [] = pure []
  label_products (p ∷ ps) = do
    code ← label_barcode p.id p.barcode
    rest ← label_products ps
    pure (record { id = p.id; name = p.name; sku = p.sku; barcode = code } ∷ rest)

  -- `prepareProductLabels`
  unfoldable pub prepare_product_labels : List ℕ → Action Db (List ProductLabel)
  prepare_product_labels ids = with_tenant (do
    found ← gets (λ db. select (λ p. mem_nat p.id ids && is_live p) db.products)
    throw_if (not (length found == length ids)) not_found
    label_products found)

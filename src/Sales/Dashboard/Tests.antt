-- ===== src/Sales/Dashboard/Tests.antt =====
-- The figures of a small shop.
use estoque_saas.Base.{ℕ, ◌≡◌, refl, none, some, [], ◌∷◌, pos, ◌+ℤ◌, ◌*ℤ◌, ◌≤ℤ◌, arith, map, select}
use estoque_saas.Stock.Rows.{Sale, SaleItem}
use estoque_saas.Stock.Db.{Db}
use estoque_saas.Stock.Tests.{empty_shop}
use estoque_saas.Sales.Dashboard.{
  DateFilter, revenue, quantity_sold, AbcEntry, Class, class_a, class_c, classify, sold_items,
  in_filter, by_product, class_of, get_abc_curve,
}
use estoque_saas.Sales.Dashboard.Curve.{sold_of, stated, IsRanked, get_abc_curve-IsRanked}
use estoque_saas.Sales.Dashboard.Classes.{
  IsGraded, StartsWithA, HasNoReturn, total_a, total_value, get_abc_curve-IsGraded,
}
use estoque_saas.Sales.Dashboard.Stalled.{
  get_stalled_products, stalled_ids, ids_of, is_stalled, get_stalled_products_lem,
}

abbrev receipt : ℕ → ℕ → Sale
receipt id at = record {
  id = id;
  store_id = 1;
  customer_id = none;
  seller_id = 7;
  total_amount_cents = pos 900;
  payment_method_label = none;
  created_at = at;
}

abbrev sold_item : ℕ → ℕ → ℕ → SaleItem
sold_item sale product quantity = record {
  sale_id = sale;
  product_id = product;
  batch_id = none;
  quantity = pos quantity;
  unit_price_cents = pos 150;
}

abbrev busy_shop : Db
busy_shop = record empty_shop {
  sales = receipt 3 30 ∷ receipt 2 20 ∷ receipt 1 10 ∷ [];
  sale_items =
      sold_item 3 5 4 ∷ sold_item 2 4 1 ∷ sold_item 2 1 9 ∷ sold_item 1 6 50 ∷ sold_item 3 1 6 ∷ [];
}

abbrev lately : DateFilter
lately = record { store_id = some 1; from_date = some 15; to_date = none }

abbrev graded : AbcEntry → ℕ × Class
graded e = (e.product_id, e.klass)

curve_of_busy_shop :
    map graded (get_abc_curve (some quantity_sold) lately busy_shop)
    ≡ (1, class_a) ∷ (5, class_a) ∷ (4, class_c) ∷ []
unfolding get_abc_curve classify sold_items in_filter by_product class_of ◌+ℤ◌ ◌*ℤ◌
curve_of_busy_shop = refl

get_abc_curve-IsRanked_example :
    ((p : ℕ)
      → stated p (get_abc_curve none lately busy_shop)
        ≡ sold_of revenue lately p busy_shop.sales busy_shop.sale_items)
    × IsRanked (get_abc_curve none lately busy_shop)
get_abc_curve-IsRanked_example = get_abc_curve-IsRanked none lately busy_shop

busy_values : HasNoReturn quantity_sold (sold_items lately busy_shop)
unfolding sold_items in_filter
busy_values = (omega arith, (omega arith, (omega arith, (omega arith, tt))))

get_abc_curve-IsGraded_example :
    IsGraded (get_abc_curve (some quantity_sold) lately busy_shop)
    × StartsWithA (get_abc_curve (some quantity_sold) lately busy_shop)
    × (pos 80 *ℤ total_value (get_abc_curve (some quantity_sold) lately busy_shop)
        ≤ℤ pos 100 *ℤ total_a (get_abc_curve (some quantity_sold) lately busy_shop))
get_abc_curve-IsGraded_example =
    get_abc_curve-IsGraded (some quantity_sold) lately busy_shop busy_values

get_stalled_products_lem_example :
    stalled_ids (get_stalled_products (λ days. days) (some 1) none busy_shop)
    ≡ ids_of (select (is_stalled 30 (some 1) busy_shop.movements) busy_shop.products)
get_stalled_products_lem_example = get_stalled_products_lem (λ days. days) (some 1) none busy_shop

-- ===== src/Sales/Dashboard.antt =====
-- services/app/src/modules/sales/dashboard.ts: the figures of a period, read from its sales. No
-- operation changes the status of a sale, which is `completed` from its creation, so a row has none.
use estoque_saas.Base.{
  ℕ, Bool, true, ◌&&◌, Option, none, some, List, [], ◌∷◌, ℤ, pos, ◌+ℤ◌, ◌*ℤ◌, ltb_ℤ, leb_ℤ, leb,
  ltb, ◌==◌, if◌then◌else◌, find, select, any, take, map, length, sum_ℤ, Text, or_else, is_some,
}
use estoque_saas.Stock.Rows.{Product, Movement, Sale, SaleItem}
use estoque_saas.Stock.Db.{Db}
use estoque_saas.Stock.Balance.{set_sum}
pub mod Curve
pub mod Classes
pub mod Stalled
pub mod Tests

-- DashboardDateFilter
pub record DateFilter : Type 0 where
  pub store_id : Option ℕ
  pub from_date : Option ℕ
  pub to_date : Option ℕ

pub data Metric : Type 0 where
  revenue quantity_sold : Metric

pub data Class : Type 0 where
  class_a class_b class_c : Class

-- A percentage as the fraction `part / whole` of which it is the hundredfold.
pub record Percentage : Type 0 where
  pub part : ℤ
  pub whole : ℤ

-- One element of what getAbcCurve answers.
pub record AbcEntry : Type 0 where
  pub product_id : ℕ
  pub product_name : Text
  pub value : ℤ
  pub cumulative_percentage : Percentage
  pub klass : Class

abbrev pub holds : (ℕ → Bool) → Option ℕ → Bool
holds test none = true
holds test (some n) = test n

-- The `where` of the sales.
pub in_filter : DateFilter → Sale → Bool
in_filter f s =
    holds (λ store. s.store_id == store) f.store_id
    && (holds (λ day. leb day s.created_at) f.from_date
        && holds (λ day. leb s.created_at day) f.to_date)

-- The items of those sales.
pub sold_items : DateFilter → Db → List SaleItem
unfolding in_filter
sold_items f db =
    select (λ i. any (λ s. (s.id == i.sale_id) && in_filter f s) db.sales) db.sale_items

abbrev pub item_value : Metric → SaleItem → ℤ
item_value revenue i = i.quantity *ℤ i.unit_price_cents
item_value quantity_sold i = i.quantity

-- The loop that adds the items up by product.
pub by_product : Metric → List SaleItem → List (ℕ × ℤ) → List (ℕ × ℤ)
by_product metric [] sums = sums
by_product metric (i ∷ is) sums =
    by_product metric is (set_sum i.product_id (item_value metric i) sums)

-- `.sort((a, b) => b[1] - a[1])`, which is stable: a pair is put before the first that is not larger.
abbrev pub insert : ℕ × ℤ → List (ℕ × ℤ) → List (ℕ × ℤ)
insert e [] = e ∷ []
insert e (c ∷ cs) = if leb_ℤ c.1 e.1 then e ∷ c ∷ cs else c ∷ insert e cs

abbrev pub sort : List (ℕ × ℤ) → List (ℕ × ℤ)
sort [] = []
sort (e ∷ es) = insert e (sort es)

-- `reduce((sum, [, v]) => sum + v, 0)`
abbrev pub sum_from : ℤ → List (ℕ × ℤ) → ℤ
sum_from sum [] = sum
sum_from sum (e ∷ es) = sum_from (sum +ℤ e.1) es

abbrev pub percent : ℤ → ℤ → Percentage
percent cumulative total =
    if ltb_ℤ (pos 0) total
    then record { part = cumulative; whole = total }
    else record { part = pos 0; whole = pos 1 }

-- `before < 80` and `before < 95`, without the rounding of a division.
unfoldable pub class_of : Percentage → Class
class_of before =
    if ltb_ℤ (pos 100 *ℤ before.part) (pos 80 *ℤ before.whole)
    then class_a
    else if ltb_ℤ (pos 100 *ℤ before.part) (pos 95 *ℤ before.whole)
    then class_b
    else class_c

-- The class of an element is that of what is sold before it.
pub classify : (ℕ → Text) → ℤ → ℤ → List (ℕ × ℤ) → List AbcEntry
unfolding class_of
classify name total cumulative [] = []
classify name total cumulative (e ∷ es) =
    record {
      product_id = e.0;
      product_name = name e.0;
      value = e.1;
      cumulative_percentage = percent (cumulative +ℤ e.1) total;
      klass = class_of (percent cumulative total);
    }
    ∷ classify name total (cumulative +ℤ e.1) es

abbrev name_in : Option Product → Text
name_in none = []
name_in (some p) = p.name

-- `nameById.get(productId) ?? ""`
abbrev pub name_of : Db → ℕ → Text
name_of db id = name_in (find (λ (p : Product). p.id == id) db.products)

-- `getAbcCurve`
unfoldable pub get_abc_curve : Option Metric → DateFilter → Db → List AbcEntry
unfolding classify by_product sold_items
get_abc_curve metric f db =
    let sorted = sort (by_product (or_else metric revenue) (sold_items f db) []) in
    classify (name_of db) (sum_from (pos 0) sorted) (pos 0) sorted

-- What getRevenueSummary answers.
pub record RevenueSummary : Type 0 where
  pub revenue_cents : ℤ
  pub sales_count : ℕ

-- `getRevenueSummary`: the sum and the count of the sales of a period.
unfoldable pub get_revenue_summary : DateFilter → Db → RevenueSummary
unfolding in_filter
get_revenue_summary f db =
    let sales = select (in_filter f) db.sales in
    record {
      revenue_cents = sum_ℤ (map (λ (s : Sale). s.total_amount_cents) sales);
      sales_count = length sales;
    }

-- ===== src/Sales/Dashboard/Curve.antt =====
-- The ABC curve of dashboard.ts: what it counts, its order and its classes.
use estoque_saas.Base.{
  ℕ, ◌≡◌, refl, ◌∙◌, inl, inr, Bool, Bool-cases, true, ◌&&◌, leb, any, select, ◌*ℤ◌, Option, none,
  some, List, [], ◌∷◌, arith, ℤ, pos, ◌+ℤ◌, ◌≤ℤ◌, ◌==◌, int_laws, if◌then◌else◌, or_else, All, Text,
}
use estoque_saas.Stock.Rows.{Sale, SaleItem}
use estoque_saas.Stock.Db.{Db}
use estoque_saas.Stock.Balance.{set_sum}
use estoque_saas.Sales.Dashboard.{
  DateFilter, Metric, revenue, quantity_sold, in_filter, AbcEntry, sold_items, item_value,
  by_product, insert, sort, sum_from, classify, get_abc_curve, name_of,
}

-- What the items of a product come to, in the code's own words.
abbrev pub value_of : Metric → ℕ → List SaleItem → ℤ
value_of metric p [] = pos 0
value_of metric p (i ∷ is) =
    (if i.product_id == p then item_value metric i else pos 0) +ℤ value_of metric p is

-- What the entries of a product say.
abbrev pub stated : ℕ → List AbcEntry → ℤ
stated p [] = pos 0
stated p (e ∷ es) = (if e.product_id == p then e.value else pos 0) +ℤ stated p es

-- The largest values first.
abbrev pub IsRanked : List AbcEntry → Type 0
IsRanked [] = Unit
IsRanked (e ∷ es) = All (λ (d : AbcEntry). d.value ≤ℤ e.value) es × IsRanked es

-- What is counted.
sum_of : ℕ → List (ℕ × ℤ) → ℤ
sum_of p [] = pos 0
sum_of p (e ∷ es) = (if e.0 == p then e.1 else pos 0) +ℤ sum_of p es

stated-classify :
    (name : ℕ → Text) (total c : ℤ) (p : ℕ) (es : List (ℕ × ℤ))
    → stated p (classify name total c es) ≡ sum_of p es
unfolding classify sum_of
stated-classify name total c p [] = refl
stated-classify name total c p (e ∷ es) = rw (stated-classify name total (c +ℤ e.1) p es) refl

sum_of-insert : (p : ℕ) (e : ℕ × ℤ) (es : List (ℕ × ℤ)) → sum_of p (insert e es) ≡ sum_of p (e ∷ es)
unfolding sum_of
sum_of-insert p e [] = refl
sum_of-insert p e (c ∷ cs) = grind (int_laws, sum_of-insert p e cs)

sum_of-sort : (p : ℕ) (es : List (ℕ × ℤ)) → sum_of p (sort es) ≡ sum_of p es
unfolding sum_of
sum_of-sort p [] = refl
sum_of-sort p (e ∷ es) = grind (int_laws, sum_of-sort p es, sum_of-insert p e (sort es))

sum_of-set_sum :
    (p q : ℕ) (v : ℤ) (m : List (ℕ × ℤ))
    → sum_of p (set_sum q v m) ≡ sum_of p m +ℤ (if q == p then v else pos 0)
unfolding sum_of
sum_of-set_sum p q v [] = grind int_laws
sum_of-set_sum p q v ((j, w) ∷ rest) = grind (int_laws, sum_of-set_sum p q v rest)

sum_of-by_product :
    (metric : Metric) (p : ℕ) (is : List SaleItem) (m : List (ℕ × ℤ))
    → sum_of p (by_product metric is m) ≡ sum_of p m +ℤ value_of metric p is
unfolding by_product
sum_of-by_product metric p [] m = grind int_laws
sum_of-by_product metric p (i ∷ is) m = grind (
  int_laws,
  sum_of-by_product metric p is (set_sum i.product_id (item_value metric i) m),
  sum_of-set_sum p i.product_id (item_value metric i) m,
)

by_product_from_none :
    (metric : Metric) (p : ℕ) (is : List SaleItem)
    → sum_of p (by_product metric is []) ≡ value_of metric p is
unfolding sum_of
by_product_from_none metric p is = grind (int_laws, sum_of-by_product metric p is [])

-- The order.
abbrev IsUnder : ℤ → List (ℕ × ℤ) → Type 0
IsUnder v = All λ (e : ℕ × ℤ). e.1 ≤ℤ v

abbrev IsSorted : List (ℕ × ℤ) → Type 0
IsSorted [] = Unit
IsSorted (e ∷ es) = IsUnder e.1 es × IsSorted es

IsUnder-trans : (v w : ℤ) (es : List (ℕ × ℤ)) → v ≤ℤ w → IsUnder v es → IsUnder w es
IsUnder-trans v w [] h u = tt
IsUnder-trans v w (e ∷ es) h u = (omega arith, IsUnder-trans v w es h u.1)

insert-IsUnder :
    (v : ℤ) (e : ℕ × ℤ) (es : List (ℕ × ℤ)) → e.1 ≤ℤ v → IsUnder v es → IsUnder v (insert e es)
insert-IsUnder v e [] h u = (h, tt)
insert-IsUnder v e (c ∷ cs) h u = ground (arith, insert-IsUnder v e cs h u.1)

insert-IsSorted : (e : ℕ × ℤ) (es : List (ℕ × ℤ)) → IsSorted es → IsSorted (insert e es)
insert-IsSorted e [] s = (tt, tt)
insert-IsSorted e (c ∷ cs) s =
    ground (arith, insert-IsSorted e cs s.1, insert-IsUnder c.1 e cs, IsUnder-trans c.1 e.1 cs)

sort-IsSorted : (es : List (ℕ × ℤ)) → IsSorted (sort es)
sort-IsSorted [] = tt
sort-IsSorted (e ∷ es) = insert-IsSorted e (sort es) (sort-IsSorted es)

module _ (name : ℕ → Text) (total : ℤ) where
  classify-IsUnder :
      (v c : ℤ) (es : List (ℕ × ℤ))
      → IsUnder v es
      → All (λ (d : AbcEntry). d.value ≤ℤ v) (classify name total c es)
  unfolding classify
  classify-IsUnder v c [] u = tt
  classify-IsUnder v c (e ∷ es) u = (u.0, classify-IsUnder v (c +ℤ e.1) es u.1)

  classify-IsRanked :
      (c : ℤ) (es : List (ℕ × ℤ)) → IsSorted es → IsRanked (classify name total c es)
  unfolding classify
  classify-IsRanked c [] s = tt
  classify-IsRanked c (e ∷ es) s =
      (classify-IsUnder e.1 (c +ℤ e.1) es s.0, classify-IsRanked (c +ℤ e.1) es s.1)

-- The days and the store that are asked for, on a sale.
abbrev at_store : Option ℕ → Sale → Bool
at_store none s = true
at_store (some store) s = s.store_id == store

abbrev since : Option ℕ → Sale → Bool
since none s = true
since (some first) s = leb first s.created_at

abbrev until : Option ℕ → Sale → Bool
until none s = true
until (some last) s = leb s.created_at last

-- An item counts when its sale was made in the store that is named, if one is, and neither before the
-- first instant nor after the last one, if these are given.
abbrev pub counts : DateFilter → List Sale → SaleItem → Bool
counts f sales i =
    any
      (λ s.
        (s.id == i.sale_id)
        && (at_store f.store_id s && (since f.from_date s && until f.to_date s)))
      sales

-- An item is worth its quantity times its price in cents, or its quantity.
abbrev pub worth : Metric → SaleItem → ℤ
worth revenue i = i.quantity *ℤ i.unit_price_cents
worth quantity_sold i = i.quantity

-- What a product has sold: the worth of its items that count.
abbrev pub sold_of : Metric → DateFilter → ℕ → List Sale → List SaleItem → ℤ
sold_of metric f p sales [] = pos 0
sold_of metric f p sales (i ∷ is) =
    (if (i.product_id == p) && counts f sales i then worth metric i else pos 0)
    +ℤ sold_of metric f p sales is

in_filter-counts :
    (f : DateFilter) (i : SaleItem) (sales : List Sale)
    → any (λ s. (s.id == i.sale_id) && in_filter f s) sales ≡ counts f sales i
unfolding in_filter
in_filter-counts f i [] = refl
in_filter-counts f i (s ∷ ss) = let rest = in_filter-counts f i ss in ground (arith, rest)

item_value-worth : (metric : Metric) (i : SaleItem) → item_value metric i ≡ worth metric i
item_value-worth revenue i = refl
item_value-worth quantity_sold i = refl

value_of-select :
    (metric : Metric) (f : DateFilter) (p : ℕ) (sales : List Sale) (is : List SaleItem)
    → value_of metric p (select (λ i. any (λ s. (s.id == i.sale_id) && in_filter f s) sales) is)
      ≡ sold_of metric f p sales is
value_of-select metric f p sales [] = refl
value_of-select metric f p sales (i ∷ is) =
    let rest = value_of-select metric f p sales is in
    let same = in_filter-counts f i sales in
    let value = item_value-worth metric i in
    elim (Bool-cases (counts f sales i)) [
      | inl c ↦ rw (same ∙ c) (rw c (grind (int_laws, rest, value)))
      | inr c ↦ rw (same ∙ c) (rw c (grind (int_laws, rest, value)))
    ]

value_of-sold_items :
    (metric : Metric) (f : DateFilter) (p : ℕ) (db : Db)
    → value_of metric p (sold_items f db) ≡ sold_of metric f p db.sales db.sale_items
unfolding sold_items
value_of-sold_items metric f p db = value_of-select metric f p db.sales db.sale_items

-- For every metric, filter and state of the rows, the ABC curve states for every product exactly what
-- its items sold in the store and the period of the filter come to, their quantities times their
-- prices or their quantities alone, by revenue when no metric is given, and its entries are ranked, the
-- largest values first.
pub get_abc_curve-IsRanked :
    (metric : Option Metric) (f : DateFilter) (db : Db)
    → ((p : ℕ)
        → stated p (get_abc_curve metric f db)
          ≡ sold_of (or_else metric revenue) f p db.sales db.sale_items)
      × IsRanked (get_abc_curve metric f db)
unfolding get_abc_curve
get_abc_curve-IsRanked metric f db =
    let m : Metric = or_else metric revenue in
    let sums : List (ℕ × ℤ) = by_product m (sold_items f db) [] in
    let total : ℤ = sum_from (pos 0) (sort sums) in
    (
      λ p.
          stated-classify (name_of db) total (pos 0) p (sort sums)
          ∙ sum_of-sort p sums
          ∙ by_product_from_none m p (sold_items f db)
          ∙ value_of-sold_items m f p db,
      classify-IsRanked (name_of db) total (pos 0) (sort sums) (sort-IsSorted sums),
    )

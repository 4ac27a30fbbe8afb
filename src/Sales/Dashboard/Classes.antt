-- ===== src/Sales/Dashboard/Classes.antt =====
-- The classes of the ABC curve of dashboard.ts.
use estoque_saas.Base.{
  ℕ, ◌+◌, ◌*◌, ◌≤◌, ◌≡◌, Option, List, [], ◌∷◌, arith, ℤ, pos, ◌+ℤ◌, ◌*ℤ◌, ◌≤ℤ◌, ltb_ℤ, pos_part,
  neg_part, int_laws, or_else, All, Text, Bool-cases, inl, inr, ◌⊎◌,
}
use estoque_saas.Stock.Rows.{SaleItem}
use estoque_saas.Stock.Db.{Db}
use estoque_saas.Stock.Balance.{set_sum}
use estoque_saas.Sales.Dashboard.{
  DateFilter, Metric, revenue, Class, class_a, class_b, class_c, AbcEntry, sold_items, item_value,
  by_product, insert, sort, sum_from, percent, class_of, classify, get_abc_curve, name_of,
}

-- What the entries of class A come to.
abbrev pub value_a : Class → ℤ → ℤ
value_a class_a v = v
value_a class_b v = pos 0
value_a class_c v = pos 0

abbrev pub total_a : List AbcEntry → ℤ
total_a [] = pos 0
total_a (e ∷ es) = value_a e.klass e.value +ℤ total_a es

abbrev pub total_value : List AbcEntry → ℤ
total_value [] = pos 0
total_value (e ∷ es) = e.value +ℤ total_value es

abbrev pub grade : Class → ℕ
grade class_a = 0
grade class_b = 1
grade class_c = 2

-- The classes in their order.
abbrev pub IsGraded : List AbcEntry → Type 0
IsGraded [] = Unit
IsGraded (e ∷ es) = All (λ (d : AbcEntry). grade e.klass ≤ grade d.klass) es × IsGraded es

abbrev pub StartsWithA : List AbcEntry → Type 0
StartsWithA [] = Unit
StartsWithA (e ∷ es) = e.klass ≡ class_a

times_80 :
    (a : ℤ) → pos_part (pos 80 *ℤ a) + 80 * neg_part a ≡ neg_part (pos 80 *ℤ a) + 80 * pos_part a
unfolding ◌*ℤ◌
times_80 a = ground arith

times_95 :
    (a : ℤ) → pos_part (pos 95 *ℤ a) + 95 * neg_part a ≡ neg_part (pos 95 *ℤ a) + 95 * pos_part a
unfolding ◌*ℤ◌
times_95 a = ground arith

times_100 :
    (a : ℤ)
    → pos_part (pos 100 *ℤ a) + 100 * neg_part a ≡ neg_part (pos 100 *ℤ a) + 100 * pos_part a
unfolding ◌*ℤ◌
times_100 a = ground arith

ruleset curve_laws = (int_laws, times_80, times_95, times_100)

-- No value is negative.
abbrev IsNonnegative : List (ℕ × ℤ) → Type 0
IsNonnegative = All λ (e : ℕ × ℤ). pos 0 ≤ℤ e.1

abbrev pub HasNoReturn : Metric → List SaleItem → Type 0
HasNoReturn metric = All λ i. pos 0 ≤ℤ item_value metric i

set_sum-IsNonnegative :
    (k : ℕ) (v : ℤ) (m : List (ℕ × ℤ))
    → pos 0 ≤ℤ v
    → IsNonnegative m
    → IsNonnegative (set_sum k v m)
set_sum-IsNonnegative k v [] h n = (grind int_laws, tt)
set_sum-IsNonnegative k v ((j, w) ∷ rest) h n =
    grind (int_laws, set_sum-IsNonnegative k v rest h n.1)

by_product-IsNonnegative :
    (metric : Metric) (is : List SaleItem) (m : List (ℕ × ℤ))
    → HasNoReturn metric is
    → IsNonnegative m
    → IsNonnegative (by_product metric is m)
unfolding by_product
by_product-IsNonnegative metric [] m h n = n
by_product-IsNonnegative metric (i ∷ is) m h n =
    by_product-IsNonnegative metric is (set_sum i.product_id (item_value metric i) m) h.1
      (set_sum-IsNonnegative i.product_id (item_value metric i) m h.0 n)

insert-IsNonnegative :
    (e : ℕ × ℤ) (es : List (ℕ × ℤ)) → pos 0 ≤ℤ e.1 → IsNonnegative es → IsNonnegative (insert e es)
insert-IsNonnegative e [] h n = (h, tt)
insert-IsNonnegative e (c ∷ cs) h n = ground (arith, insert-IsNonnegative e cs h n.1)

sort-IsNonnegative : (es : List (ℕ × ℤ)) → IsNonnegative es → IsNonnegative (sort es)
sort-IsNonnegative [] n = tt
sort-IsNonnegative (e ∷ es) n = insert-IsNonnegative e (sort es) n.0 (sort-IsNonnegative es n.1)

-- The running sum of a list that starts at `c`.
sum_from-least : (c : ℤ) (es : List (ℕ × ℤ)) → IsNonnegative es → c ≤ℤ sum_from c es
sum_from-least c [] n = omega arith
sum_from-least c (e ∷ es) n = grind (int_laws, sum_from-least (c +ℤ e.1) es n.1)

-- A class never goes up as more is sold before.
class_of-grows :
    (c d total : ℤ)
    → c ≤ℤ d
    → grade (class_of (percent c total)) ≤ grade (class_of (percent d total))
unfolding class_of
class_of-grows c d total h = grind curve_laws

class_of_none : (total : ℤ) → class_of (percent (pos 0) total) ≡ class_a
unfolding class_of
class_of_none total = grind curve_laws

class_of_reach :
    (c total : ℤ)
    → pos 0 ≤ℤ total
    → (class_of (percent c total) ≡ class_a) ⊎ (pos 80 *ℤ total ≤ℤ pos 100 *ℤ c)
unfolding class_of
class_of_reach c total z = elim (Bool-cases (ltb_ℤ (pos 100 *ℤ c) (pos 80 *ℤ total))) [
  | inl e ↦ inl (grind curve_laws)
  | inr e ↦ inr (ground arith)
]

value_a-least : (k : Class) (v : ℤ) → pos 0 ≤ℤ v → pos 0 ≤ℤ value_a k v
value_a-least class_a v h = h
value_a-least class_b v h = omega arith
value_a-least class_c v h = omega arith

module _ (name : ℕ → Text) (total : ℤ) where
  classify-graded_from :
      (c d : ℤ) (es : List (ℕ × ℤ))
      → c ≤ℤ d
      → IsNonnegative es
      → All
          (λ (x : AbcEntry). grade (class_of (percent c total)) ≤ grade x.klass)
          (classify name total d es)
  unfolding classify
  classify-graded_from c d [] h n = tt
  classify-graded_from c d (e ∷ es) h n =
      (class_of-grows c d total h, classify-graded_from c (d +ℤ e.1) es (grind int_laws) n.1)

  classify-IsGraded :
      (c : ℤ) (es : List (ℕ × ℤ)) → IsNonnegative es → IsGraded (classify name total c es)
  unfolding classify
  classify-IsGraded c [] n = tt
  classify-IsGraded c (e ∷ es) n = (
    classify-graded_from c (c +ℤ e.1) es (grind int_laws) n.1,
    classify-IsGraded (c +ℤ e.1) es n.1,
  )

  total_a-least :
      (c : ℤ) (es : List (ℕ × ℤ)) → IsNonnegative es → pos 0 ≤ℤ total_a (classify name total c es)
  unfolding classify
  total_a-least c [] n = omega arith
  total_a-least c (e ∷ es) n = grind (
    int_laws,
    value_a-least (class_of (percent c total)) e.1 n.0,
    total_a-least (c +ℤ e.1) es n.1,
  )

  -- The class A covers what is sold before it to at least 80 percent.
  total_a-classify :
      (c : ℤ) (es : List (ℕ × ℤ))
      → IsNonnegative es
      → pos 0 ≤ℤ total
      → total ≤ℤ sum_from c es
      → pos 80 *ℤ total ≤ℤ pos 100 *ℤ (c +ℤ total_a (classify name total c es))
  unfolding classify
  total_a-classify c [] n z h = grind curve_laws
  total_a-classify c (e ∷ es) n z h = elim (class_of_reach c total z) [
    | inl k ↦ rw k (grind (curve_laws, total_a-classify (c +ℤ e.1) es n.1 z h))
    | inr r ↦ grind (
      curve_laws,
      value_a-least (class_of (percent c total)) e.1 n.0,
      total_a-least (c +ℤ e.1) es n.1,
    )
  ]

total_value-classify :
    (name : ℕ → Text) (total c : ℤ) (es : List (ℕ × ℤ))
    → c +ℤ total_value (classify name total c es) ≡ sum_from c es
unfolding classify
total_value-classify name total c [] = grind int_laws
total_value-classify name total c (e ∷ es) =
    grind (int_laws, total_value-classify name total (c +ℤ e.1) es)

StartsWithA-classify :
    (name : ℕ → Text) (total : ℤ) (es : List (ℕ × ℤ)) → StartsWithA (classify name total (pos 0) es)
unfolding classify
StartsWithA-classify name total [] = tt
StartsWithA-classify name total (e ∷ es) = class_of_none total

-- When no item sold in the period has a negative value, the classes of the ABC curve go from A to C
-- and never back, the first entry is of class A even when it alone passes 80 percent, and the entries
-- of class A come to at least 80 percent of all that the curve states.
pub get_abc_curve-IsGraded :
    (metric : Option Metric) (f : DateFilter) (db : Db)
    → HasNoReturn (or_else metric revenue) (sold_items f db)
    → IsGraded (get_abc_curve metric f db)
      × StartsWithA (get_abc_curve metric f db)
      × (pos 80 *ℤ total_value (get_abc_curve metric f db)
          ≤ℤ pos 100 *ℤ total_a (get_abc_curve metric f db))
unfolding get_abc_curve
get_abc_curve-IsGraded metric f db h =
    let sums : List (ℕ × ℤ) = by_product (or_else metric revenue) (sold_items f db) [] in
    let rows : List (ℕ × ℤ) = sort sums in
    let total : ℤ = sum_from (pos 0) rows in
    let n : IsNonnegative rows =
      sort-IsNonnegative sums
        (by_product-IsNonnegative (or_else metric revenue) (sold_items f db) [] h tt) in
    (
      classify-IsGraded (name_of db) total (pos 0) rows n,
      StartsWithA-classify (name_of db) total rows,
      grind (
        curve_laws,
        total_value-classify (name_of db) total (pos 0) rows,
        total_a-classify (name_of db) total (pos 0) rows n (sum_from-least (pos 0) rows n)
            (omega arith),
      ),
    )

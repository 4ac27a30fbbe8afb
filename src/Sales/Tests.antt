-- ===== src/Sales/Tests.antt =====
-- A sale on a small shop, and its date.
use estoque_saas.Base.{none, some, [], ◌∷◌, pos, arith}
use estoque_saas.Stock.Balance.Posts.{Outcome}
use estoque_saas.Stock.Tests.{shop, shop-IsConsistent}
use estoque_saas.Sales.Create.{SaleInput, SaleClock, register_sale}
use estoque_saas.Sales.Create.Stock.{register_sale-Outcome, sold}
use estoque_saas.Sales.Create.Date.{IsAhead}

-- A clock whose days are single digits, and whose instants are a hundred to the day.
abbrev clock : SaleClock
clock = record { now = 5300; today = 53 ∷ []; noon_of = λ day. some 0 }

clock-IsAhead : IsAhead clock
clock-IsAhead day t l e = ground arith

abbrev basket : SaleInput
basket = record {
  store_id = 1;
  customer_id = none;
  payment_method_label = none;
  sale_date = none;
  items =
      record { product_id = 1; batch_id = none; quantity = pos 4; unit_price_cents = pos 150 } ∷ [];
}

register_sale-Outcome_example :
    Outcome shop (sold 1 basket.items) (register_sale clock 7 basket shop)
register_sale-Outcome_example = register_sale-Outcome clock 7 basket shop shop-IsConsistent

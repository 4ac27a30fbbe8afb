-- ===== src/Sales/Create/Date.antt =====
-- The date that a sale is recorded under.
use estoque_saas.Base.{
  ℕ, ◌≡◌, ◌≤◌, refl, true, false, Option, none, some, [], ◌∷◌, arith, Text, text_eq, inl, inr, ◌⊎◌,
}
use estoque_saas.Shared.Errors.{validation_error}
use estoque_saas.Shared.Transaction.{ok, err}
use estoque_saas.Sales.Create.{SaleClock, resolve_sale_date, dated, text_lt}

-- Of two texts that differ one is before the other.
text_lt_total : (a b : Text) → text_lt a b ≡ false → text_eq b a ≡ false → text_lt b a ≡ true
text_lt_total [] [] h e = cc
text_lt_total [] (y ∷ ys) h e = ground arith
text_lt_total (x ∷ xs) [] h e = refl
text_lt_total (x ∷ xs) (y ∷ ys) h e = ground (arith, text_lt_total xs ys)

-- Noon of a day before today is not later than now.
abbrev pub IsAhead : SaleClock → Type 0
IsAhead c = (day : Text) (t : ℕ) → text_lt day c.today ≡ true → c.noon_of day ≡ some t → t ≤ c.now

dated-past : (c : SaleClock) (day : Text) (t : ℕ) → IsAhead c → dated c day ≡ ok t → t ≤ c.now
dated-past c day t ahead =
    let total = text_lt_total c.today day in let before = ahead day t in ground arith

-- On a clock on which noon of an earlier day has passed, a sale is never recorded later than now,
-- whether its date is missing, empty, today's or an earlier one; a date after today is refused.
pub resolve_sale_date-past :
    (c : SaleClock) (date : Option Text) (t : ℕ)
    → IsAhead c
    → (resolve_sale_date c date ≡ ok t → t ≤ c.now)
      × ((day : Text)
          → date ≡ some day
          → text_lt c.today day ≡ true
          → (day ≡ []) ⊎ (resolve_sale_date c date ≡ err validation_error))
unfolding resolve_sale_date
resolve_sale_date-past c none t ahead = (λ h. ground arith, λ day e l. cc)
resolve_sale_date-past c (some []) t ahead = (λ h. ground arith, λ day e l. inl (cc))
resolve_sale_date-past c (some (x ∷ xs)) t ahead =
    (dated-past c (x ∷ xs) t ahead, λ day e l. inr (ground arith))

-- ===== src/Shared/Tests.antt =====
-- Instances of the shared theorems and runs of the shared code.
use estoque_saas.Base.{◌*◌, ◌≡◌, refl, false}
use estoque_saas.Shared.Rbac.{can, vendedor, stock_write}
use estoque_saas.Shared.PlanLimits.{PlanLimits, ResourceCounts}
use estoque_saas.Shared.Dates.{add_months, months_length, month_of_day, locate, month_length}

vendedor_no_stock : can vendedor stock_write ≡ false
unfolding can
vendedor_no_stock = refl

-- The 31st of January, a month on, is the 3rd of March.
january_31 : add_months 1 (30 * 86400000) ≡ 61 * 86400000
unfolding add_months months_length month_of_day locate month_length
january_31 = refl

abbrev small : PlanLimits
small = record { max_products = 100; max_users = 3; max_stores = 1 }

abbrev used : ResourceCounts
used = record { products = 99; users = 3; stores = 1 }

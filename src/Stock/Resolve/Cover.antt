-- ===== src/Stock/Resolve/Cover.antt =====
-- The rule for `resolveExitLines` inside a transaction.
use estoque_saas.Base.{ℕ, ◌≡◌, refl, Bool, Option, ℤ}
use estoque_saas.Stock.Balance.Posts.{Posts, quiet-Posts, unchanged}
use estoque_saas.Stock.Resolve.{resolve_exit_lines}
use estoque_saas.Stock.Resolve.Totals.{total, total-resolve}

-- Resolving an exit changes nothing, and its lines add up to the quantity.
pub resolve_exit_lines-Posts :
    (product store : ℕ) (quantity : ℤ) (perishable : Bool) (batch : Option ℕ)
    → Posts
        (resolve_exit_lines product store quantity perishable batch)
        unchanged
        (λ lines. total lines ≡ quantity)
unfolding resolve_exit_lines
resolve_exit_lines-Posts product store quantity perishable batch =
    quiet-Posts (resolve_exit_lines product store quantity perishable batch)
      (λ lines. total lines ≡ quantity) (λ db. (refl, refl))
      (λ db lines e. total-resolve product store quantity perishable batch _ db e)

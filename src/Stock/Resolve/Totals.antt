-- ===== src/Stock/Resolve/Totals.antt =====
-- The lines of an exit add up to its quantity, on every way that they are resolved.
use estoque_saas.Base.{
  ℕ, ◌≡◌, refl, ap, Bool, true, false, Option, none, some, List, [], ◌∷◌, map, ℤ, pos, ◌+ℤ◌,
  int_laws,
}
use estoque_saas.Shared.Transaction.{ok}
use estoque_saas.Stock.Db.{Db}
use estoque_saas.Stock.Fefo.{Suggestion}
use estoque_saas.Stock.Fefo.Spec.{suggested, suggested_covered}
use estoque_saas.Stock.Resolve.{ExitLine, to_line, resolve, candidates}

abbrev pub total : List ExitLine → ℤ
total [] = pos 0
total (l ∷ ls) = l.quantity +ℤ total ls

total-to_line : (ss : List Suggestion) → total (map to_line ss) ≡ suggested ss
total-to_line [] = refl
total-to_line (s ∷ ss) = ap (λ t. s.quantity +ℤ t) (total-to_line ss)

-- A request that resolves has lines that add up to the quantity requested, whichever way it is
-- resolved: by the chosen batch, by the aggregate stock, or by the batches in order of expiry.
pub total-resolve :
    (product store : ℕ) (quantity : ℤ) (perishable : Bool) (batch : Option ℕ) (current : ℤ)
    (db : Db) {lines : List ExitLine}
    → resolve product store quantity perishable batch current db ≡ ok lines
    → total lines ≡ quantity
unfolding resolve
total-resolve product store quantity perishable (some b) current db e = grind int_laws
total-resolve product store quantity false none current db e = grind int_laws
total-resolve product store quantity true none current db e =
    grind
      (int_laws, suggested_covered (candidates product store db.batches) quantity, total-to_line)

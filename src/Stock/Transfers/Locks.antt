-- ===== src/Stock/Transfers/Locks.antt =====
-- The order in which a transfer takes its two locks.
use estoque_saas.Base.{ℕ, ◌≤◌, ◌≡◌, ◌∷◌, arith}
use estoque_saas.Shared.Transaction.{ok, ◌>>=◌}
use estoque_saas.Stock.Db.{Db, lock_stock_row}
use estoque_saas.Stock.Transfers.{lock_both}

-- Two transfers of a product between the same two stores take the same locks in the same order,
-- whichever of the stores is the origin: the lock of the lower identifier, then that of the other.
pub lock_both_comm :
    (product a b : ℕ) (db : Db)
    → (lock_both product a b db ≡ lock_both product b a db)
      × (a ≤ b → (lock_both product a b db).1.locks ≡ (product, b) ∷ (product, a) ∷ db.locks)
      × ((lock_both product a b db).0 ≡ ok tt)
unfolding lock_both lock_stock_row ◌>>=◌
lock_both_comm product a b db = ground arith

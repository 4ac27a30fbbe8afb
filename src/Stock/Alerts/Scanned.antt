-- ===== src/Stock/Alerts/Scanned.antt =====
-- What a scan of expiry-scan.ts notifies of, said of the rows alone.
use estoque_saas.Base.{ℕ, ◌+◌, ◌≤◌, ◌<◌, ◌≡◌, ◌⊎◌, Option, List, [], ◌∷◌, All, Some}
use estoque_saas.Stock.Rows.{Product, Batch}
use estoque_saas.Stock.Db.{Db}
use estoque_saas.Stock.Alerts.{Notification, NotificationType, AlertsConfig, expiry, low_stock}
use estoque_saas.Stock.Alerts.Due.{IsExpiring, IsLow}

-- A notification of this kind, of this batch or product, that is at most twenty hours old.
abbrev pub IsRecent : ℕ → NotificationType → ℕ → Notification → Type 0
IsRecent now kind reference n =
    (n.kind ≡ kind) × (n.reference ≡ reference) × (now ≤ n.created_at + 72000000)

-- No two notifications of one kind and one batch or product are within twenty hours: each is more than
-- that after every one that was there before it.
abbrev pub AreSpaced : List Notification → Type 0
AreSpaced [] = Unit
AreSpaced (n ∷ ns) =
    All
      (λ (m : Notification).
        m.kind ≡ n.kind → m.reference ≡ n.reference → m.created_at + 72000000 < n.created_at)
      ns
    × AreSpaced ns

-- A notification that was there, or that is made now of such a batch or such a product.
abbrev pub IsFounded : ℕ → Option AlertsConfig → Db → List Notification → Notification → Type 0
IsFounded now config db ns n =
    Some (λ (m : Notification). m ≡ n) ns
    ⊎ ((n.created_at ≡ now)
        × (((n.kind ≡ expiry)
              × Some (λ (b : Batch). (b.id ≡ n.reference) × IsExpiring now config b) db.batches)
            ⊎ ((n.kind ≡ low_stock)
                × Some (λ (p : Product). (p.id ≡ n.reference) × IsLow config db p) db.products)))

-- ===== src/Billing/Current.antt =====
-- The subscription that the code reads, the newest of the tenant, and writes by its identifier.
use estoque_saas.Base.{◌≡◌, refl, ap, List, ◌∷◌, update_where, ◌==◌, ==_refl}
use estoque_saas.Shared.Transaction.{ok}
use estoque_saas.Billing.Rows.{BillingDb, Subscription}
use estoque_saas.Billing.Subscriptions.{update_subscription}

pub update-current :
    (f : Subscription → Subscription) (s : Subscription) (ss : List Subscription) (db : BillingDb)
    → db.subscriptions ≡ s ∷ ss
    → update_subscription s.id f db
      ≡ (ok (f s), record db { subscriptions = f s ∷ update_where (λ x. x.id == s.id) f ss })
unfolding update_subscription
update-current f s ss db e =
    let rows : update_where (λ x. x.id == s.id) f db.subscriptions
        ≡ f s ∷ update_where (λ x. x.id == s.id) f ss =
      rw e (rw (==_refl s.id) refl) in
    rw (e, update_subscription)
      (rw (==_refl s.id) (ap (λ l. (ok (f s), record db { subscriptions = l })) rows))

-- ===== src/Billing/Subscriptions/Checkout.antt =====
-- How a checkout ends at the gateway once the gateway has created a subscription, whichever of the
-- steps of its write fails.
use estoque_saas.Base.{◌≡◌, ◌≢◌, ◌⊎◌, some, List, ◌∷◌, Text, if◌then◌else◌}
use estoque_saas.Shared.Transaction.{Action, Result, ok}
use estoque_saas.Shared.Fixes.{Fixes}
use estoque_saas.Billing.Rows.{BillingDb, Subscription, current_subscription}
use estoque_saas.Billing.Gateway.{Faults}

-- The newest subscription of the tables is the one that is answered, and names the gateway's.
abbrev pub Registered : Text → Subscription → BillingDb → Type 0
Registered id x db = (current_subscription db ≡ some x) × (x.gateway_subscription_id ≡ some id)

-- The call throws, and all that is left of it is a cancellation at the gateway, if the gateway takes it.
abbrev pub Undone : Faults → Text → BillingDb → Result Subscription × BillingDb → Type 0
Undone faults id db run =
    ((x : Subscription) → run.0 ≢ ok x)
    × (run.1 ≡ (
        if faults.cancels
        then record db { canceled_at_gateway = id ∷ db.canceled_at_gateway }
        else db))

abbrev pub Ends : Faults → Text → BillingDb → Result Subscription × BillingDb → Type 0
Ends faults id db run =
    ((x : Subscription) × (run.0 ≡ ok x) × Registered id x run.1) ⊎ Undone faults id db run

abbrev rows : BillingDb → List Subscription
rows db = db.subscriptions

-- Steps that, from tables whose newest subscriptions are these, return one that is registered.
record Registers (id : Text) (x : Subscription) (xs : List Subscription)
    (m : Action BillingDb Subscription) : Type 0 where
  pub at_state :
      (db : BillingDb)
      → db.subscriptions ≡ x ∷ xs
      → (b : Subscription) → (m db).0 ≡ ok b
      → Registered id b (m db).1

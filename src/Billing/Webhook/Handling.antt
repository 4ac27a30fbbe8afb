-- ===== src/Billing/Webhook/Handling.antt =====
-- services/app/src/modules/billing/webhook.ts: the handler of an event, and the webhook that brings it.
use estoque_saas.Base.{ℕ, Bool, not, Option, none, some, Text}
use estoque_saas.Shared.Errors.{unauthorized}
use estoque_saas.Shared.Transaction.{Action, ◌>>=◌, ◌>>◌, pure, fail, gets, throw_if, with_tenant}
use estoque_saas.Billing.Rows.{BillingDb}
use estoque_saas.Billing.Webhook.{
  Confirmation, Event, Match, charge_created, charge_failed, charge_paid, charge_pix_updated,
  ignored, on_canceled, on_failed, on_paid, on_pix_updated, subscription_canceled,
}
use estoque_saas.Billing.Webhook.Created.{on_created}

-- The handler of each event, on the invoice and the subscription that the lookup found; an event
-- that lacks its row does nothing.
unfoldable pub handle :
    Event → (invoice subscription : Option ℕ) → Action BillingDb (Option Confirmation)
handle (charge_created c) i (some s) = on_created c s
handle (charge_pix_updated e c qr url) (some i) s = on_pix_updated i qr url
handle (charge_paid e c at) (some i) s = on_paid e i s at
handle (charge_failed e c) (some i) s = on_failed i s
handle (subscription_canceled e g) i (some s) = on_canceled s
handle e i s = pure none

-- The transaction of an event.
unfoldable pub apply_event : Event → Match → Action BillingDb (Option Confirmation)
apply_event e m = with_tenant (handle e m.invoice_id m.subscription_id)

-- The charge and the subscription by which an event is looked up.
unfoldable pub charge_ref : Event → Option Text
charge_ref (charge_created c) = some c.charge_id
charge_ref (charge_pix_updated e c qr url) = some c
charge_ref (charge_paid e c at) = some c
charge_ref (charge_failed e c) = some c
charge_ref _ = none

unfoldable pub subscription_ref : Event → Option Text
subscription_ref (charge_created c) = some c.gateway_subscription_id
subscription_ref (subscription_canceled e g) = some g
subscription_ref _ = none

pub data Gateway : Type 0 where
  pagbank vindi : Gateway

-- A webhook whose signature the provider has or has not accepted; `lookup` is the database's function
-- `billing_lookup_tenant_by_gateway_ref`. A Vindi event that nothing matches is refused, so that Vindi
-- delivers it again; a PagBank event is dropped.
unfoldable pub process_webhook :
    (Option Text → Option Text → BillingDb → Option Match)
    → Gateway
    → Bool
    → Event
    → Action BillingDb (Option Confirmation)
process_webhook lookup gateway verified (ignored e) =
    throw_if (not verified) unauthorized >> pure none
process_webhook lookup gateway verified event = do
  throw_if (not verified) unauthorized
  found ← gets (lookup (charge_ref event) (subscription_ref event))
  elim found [
    | none ↦ elim gateway [ pagbank ↦ pure none | vindi ↦ fail ]
    | some m ↦ apply_event event m
  ]

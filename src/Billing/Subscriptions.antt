-- ===== src/Billing/Subscriptions.antt =====
-- services/app/src/modules/billing/subscriptions.ts: a tenant signs a plan, by card, by Pix with the
-- gateway's own recurrence, or by Pix charged month by month, and changes its plan.
use estoque_saas.Base.{
  ℕ, suc, Bool, true, false, not, ◌&&◌, ◌||◌, Option, none, some, List, [], ◌∷◌, Text, truthy,
  or_else, is_some, find, any, update_where, ltb, ◌==◌, if◌then◌else◌, ◌≡◌, refl,
}
use estoque_saas.Shared.Errors.{ErrorCode, payment_required, validation_error, not_found, conflict}
use estoque_saas.Shared.PlanLimits.{Resource, fits_within_plan}
use estoque_saas.Shared.Dates.{add_months}
use estoque_saas.Shared.Transaction.{
  Action, Result, ok, err, crash, ◌>>=◌, ◌>>◌, pure, throw, fail, gets, modify, or_throw, or_fail,
  throw_if, with_tenant,
}
use estoque_saas.Billing.Rows.{
  BillingDb, Subscription, SubscriptionStatus, trialing, active, pending_payment, PaymentMethod,
  card, pix_boleto, Invoice, InvoiceStatus, InvoiceMethod, pending, paid, failed, by_card, by_pix,
  Plan, Tenant, find_plan, current_subscription, is_open, is_trialing, is_pending_payment,
  subscription_updated, tenant_billing_address, BillingAddress,
}
use estoque_saas.Billing.Gateway.{
  ChargeStatus, InitialCharge, RecurringResult, Reply, Provider, rethrow, is_one_of, refusal,
  card_reply, pix_reply, is_charge_ok, is_charge_refused, invoice_status, was_paid, first_invoice,
  Faults, try_cancel, undo, or_cancel, reached, charge_ok, charge_waiting, charge_refused, charged,
  refused,
}
use estoque_saas.Billing.Webhook.{audit, create_invoice, update_invoices, resolve_invoice_amount}
pub mod Plans
pub mod Unpaid
pub mod Checkout

abbrev pub after_now : Option ℕ → ℕ → Bool
after_now none now = false
after_now (some t) now = ltb now t

-- `statusUntilPaid`
unfoldable pub status_until_paid : Subscription → ℕ → SubscriptionStatus
status_until_paid s now =
    if is_trialing s.status && after_now s.trial_ends_at now then trialing else pending_payment

-- `tx.subscription.update`, which throws when the row is gone.
unfoldable pub update_subscription :
    ℕ → (Subscription → Subscription) → Action BillingDb Subscription
update_subscription id f db = elim (find (λ s. s.id == id) db.subscriptions) [
  | none ↦ (crash, db)
  | some s ↦
      (ok (f s), record db { subscriptions = update_where (λ s. s.id == id) f db.subscriptions })
]

-- The end of a checkout's write, with its commit.
abbrev pub finish : Faults → Subscription → Action BillingDb Subscription
finish faults updated = do
  reached (faults.is_up 2)
  audit subscription_updated updated.id
  reached (faults.is_up 3)
  pure updated

-- The invoice of a card's first charge, if there is one.
abbrev pub invoice_of :
    RecurringResult → Subscription → Plan → ℕ → Option InitialCharge → Action BillingDb (Unit {0})
invoice_of r current plan now none = pure tt
invoice_of r current plan now (some c) =
    create_invoice (first_invoice r c by_card current.id plan.price_cents now none) >> pure tt

pub store_card : Faults → Subscription → Plan → RecurringResult → Action BillingDb Subscription
store_card faults current plan r = with_tenant (do
  reached (faults.is_up 0)
  now ← gets (λ db. db.now)
  updated ← update_subscription current.id (λ s. record s {
    plan_id = plan.id;
    status = if is_charge_ok r.status then active else status_until_paid current now;
    payment_method = card;
    gateway_subscription_id = some r.gateway_subscription_id;
    gateway_customer_id = some r.gateway_customer_id;
    current_period_start = some now;
    current_period_end = some (add_months 1 now);
  })
  reached (faults.is_up 1)
  invoice_of r current plan now r.initial_charge
  finish faults updated)

-- `createRecurringCardSubscription`
pub sign_by_card : Faults → Bool → Plan → Reply → Action BillingDb Subscription
sign_by_card faults vindi plan reply = do
  found ← gets current_subscription
  current ← or_throw found not_found
  r ← card_reply vindi reply
  throw_if (is_charge_refused r.status) payment_required
  or_cancel faults r.gateway_subscription_id (store_card faults current plan r)

abbrev pub is_open_of : ℕ → Invoice → Bool
is_open_of subscription i = (i.subscription_id == subscription) && is_open i.status

abbrev has_qr : Option Invoice → Bool
has_qr none = false
has_qr (some i) = truthy i.pix_qr_code

pub store_pix :
    Faults → Subscription → Plan → RecurringResult → InitialCharge → Action BillingDb Subscription
store_pix faults current plan r c = with_tenant (do
  reached (faults.is_up 0)
  now ← gets (λ db. db.now)
  updated ← update_subscription current.id (λ s. record s {
    plan_id = plan.id;
    status = if was_paid r.initial_charge_status then active else status_until_paid current now;
    payment_method = pix_boleto;
    gateway_subscription_id = some r.gateway_subscription_id;
    gateway_customer_id = some r.gateway_customer_id;
  })
  reached (faults.is_up 1)
  create_invoice (first_invoice r c by_pix current.id plan.price_cents now c.pix_qr_code)
  finish faults updated)

-- The initial charge that a Pix checkout needs, with a code or a link.
abbrev pub usable_charge : Option InitialCharge → Option InitialCharge
usable_charge none = none
usable_charge (some c) =
    if truthy (some c.charge_id) && (truthy c.pix_qr_code || truthy c.boleto_url)
    then some c
    else none

-- A charge at the gateway, after the subscription that it replaces was dropped.
pub charge_by_pix : Faults → Subscription → Plan → Reply → Action BillingDb Subscription
charge_by_pix faults current plan reply = do
  r ← pix_reply reply
  c ← or_throw (usable_charge r.initial_charge) payment_required
  or_cancel faults r.gateway_subscription_id (store_pix faults current plan r c)

-- The open invoices of a subscription that a checkout replaces fail before it is canceled; a failure
-- to cancel is logged and swallowed.
pub drop_unpaid : Faults → Subscription → Text → Action BillingDb (Unit {0})
drop_unpaid faults current gateway_id = do
  update_invoices (is_open_of current.id) (λ i. record i { status = failed })
  modify (try_cancel faults gateway_id)

-- A checkout again, on a gateway subscription that waits for its payment: an open invoice with a QR
-- code is answered as it is, and one without is replaced.
pub replacing :
    Faults
    → Subscription
    → Plan
    → Reply
    → (has_code : Bool) → Option Text
    → Action BillingDb Subscription
replacing faults current plan reply has_code none = charge_by_pix faults current plan reply
replacing faults current plan reply has_code (some []) = charge_by_pix faults current plan reply
replacing faults current plan reply true (some (c ∷ id)) = pure current
replacing faults current plan reply false (some (c ∷ id)) =
    drop_unpaid faults current (c ∷ id) >> charge_by_pix faults current plan reply

-- `createRecurringPixSubscription`
pub sign_by_pix : Faults → Plan → Reply → Action BillingDb Subscription
sign_by_pix faults plan reply = do
  found ← gets current_subscription
  current ← or_throw found not_found
  open_invoice ← gets (λ db. find (is_open_of current.id) db.invoices)
  replacing faults current plan reply (has_qr open_invoice)
      (if is_pending_payment current.status then current.gateway_subscription_id else none)

-- Pix without a recurrence: no charge yet, and no change of the period.
unfoldable pub sign_by_month : Plan → Action BillingDb Subscription
sign_by_month plan = with_tenant (do
  found ← gets current_subscription
  current ← or_throw found not_found
  now ← gets (λ db. db.now)
  updated ← update_subscription current.id (λ s. record s {
    plan_id = plan.id;
    status = status_until_paid current now;
    payment_method = pix_boleto;
  })
  audit subscription_updated updated.id
  pure updated)

unfoldable pub sign_with :
    Faults
    → Provider
    → Plan
    → Tenant
    → Text
    → PaymentMethod
    → Option Text
    → Action BillingDb Subscription
sign_with faults provider plan tenant email card token = elim token [
  | none ↦ throw payment_required
  | some t ↦
      if truthy (some t)
      then sign_by_card faults provider.is_vindi plan (provider.charge_card plan tenant email t)
      else throw payment_required
]
sign_with faults provider plan tenant email pix_boleto token = elim provider.charge_pix [
  | none ↦ sign_by_month plan
  | some charge ↦
      if not (truthy plan.gateway_plan_id)
      then throw payment_required
      else elim (tenant_billing_address tenant.address) [
        | none ↦ throw validation_error
        | some address ↦ sign_by_pix faults plan (charge plan tenant email address)
      ]
]

-- `createSubscription`
unfoldable pub create_subscription :
    Faults → Provider → ℕ → PaymentMethod → Option Text → Action BillingDb Subscription
create_subscription faults provider plan_id method token = do
  admin ← gets (λ db. db.admin_email)
  email ← or_fail admin
  tenant ← gets (λ db. db.tenant)
  found ← gets (find_plan plan_id)
  plan ← or_fail found
  sign_with faults provider plan tenant email method token

abbrev pub violates : List Resource → Bool
violates [] = false
violates (r ∷ rs) = true

-- `changePlan`
unfoldable pub change_plan : ℕ → Action BillingDb Subscription
change_plan target_id = do
  found ← gets (find_plan target_id)
  target ← or_fail found
  with_tenant (do
    counts ← gets (λ db. db.counts)
    found_current ← gets current_subscription
    current ← or_throw found_current not_found
    throw_if (violates (fits_within_plan counts target.limits)) conflict
    updated ← update_subscription current.id (λ s. record s { plan_id = target_id })
    modify (λ db. let t = db.tenant in record db { tenant = record t { plan_id = target_id } })
    pure updated)

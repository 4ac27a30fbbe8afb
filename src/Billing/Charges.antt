-- ===== src/Billing/Charges.antt =====
-- services/app/src/modules/billing/monthly-charge.ts: the charge that the system issues each month for
-- the tenants whose gateway has no recurrence of its own, and the run over all tenants.
use estoque_saas.Base.{
  ℕ, suc, ◌+◌, ◌*◌, Bool, true, false, not, ◌&&◌, ◌||◌, Option, none, some, List, [], ◌∷◌, Text,
  truthy, or_else, is_some, find, ltb, ◌==◌, if◌then◌else◌,
}
use estoque_saas.Shared.Dates.{add_months, day_ms}
use estoque_saas.Shared.Transaction.{
  Action, Result, ok, err, crash, ◌>>=◌, ◌>>◌, pure, fail, gets, modify, or_fail, with_tenant,
}
use estoque_saas.Billing.Rows.{
  BillingDb, Subscription, SubscriptionStatus, trialing, active, pending_payment, past_due,
  canceled, PaymentMethod, card, pix_boleto, Invoice, pending, by_pix, Plan, Tenant, find_plan,
  current_subscription, invoice_created, is_open, is_trialing,
}
use estoque_saas.Billing.Webhook.{audit, create_invoice}
use estoque_saas.Billing.Subscriptions.{update_subscription, after_now, is_open_of}
pub mod Periods
pub mod Run

-- `OneOffChargeResult`, or the gateway threw.
pub record OneOffCharge : Type 0 where
  pub charge_id : Text
  pub pix_qr_code : Option Text

-- The provider of a run: whether it has a Pix recurrence, and what it answers a charge of an amount
-- for a tenant's document, due at a time.
pub record ChargeProvider : Type 0 where
  pub has_recurrence : Bool
  pub charge : (amount due : ℕ) → Tenant → Text → Option OneOffCharge

abbrev is_billable : SubscriptionStatus → Bool
is_billable active = true
is_billable trialing = true
is_billable pending_payment = true
is_billable _ = false

abbrev is_pix : PaymentMethod → Bool
is_pix pix_boleto = true
is_pix card = false

-- The guards before a charge: a monthly Pix subscription in a status to be billed, with no running
-- trial, whose period has ended or was never set.
unfoldable pub is_due : ChargeProvider → Subscription → ℕ → Bool
is_due provider s now =
    is_pix s.payment_method
    && (not provider.has_recurrence
        && (is_billable s.status
            && (not (is_trialing s.status && after_now s.trial_ends_at now)
                && not (after_now s.current_period_end now))))

abbrev pub due_invoice : Subscription → Plan → OneOffCharge → ℕ → Invoice
due_invoice s plan c now = record {
  id = 0;
  subscription_id = s.id;
  amount_cents = plan.price_cents;
  status = pending;
  due_date = now + 5 * day_ms;
  paid_at = none;
  payment_method = by_pix;
  gateway_charge_id = some c.charge_id;
  gateway_event_id = none;
  pix_qr_code = c.pix_qr_code;
  boleto_url = none;
}

-- A charge with an identifier and a Pix code.
abbrev pub usable : Option OneOffCharge → Option OneOffCharge
usable none = none
usable (some c) = if truthy (some c.charge_id) && truthy c.pix_qr_code then some c else none

-- `tenant.cnpj ?? tenant.cpf`, which is refused where it is empty.
abbrev cnpj_or_cpf : Tenant → Option Text
cnpj_or_cpf t = elim t.cnpj [ none ↦ t.cpf | some c ↦ some c ]

abbrev pub document : Tenant → Option Text
document t = if truthy (cnpj_or_cpf t) then cnpj_or_cpf t else none

unfoldable pub charge_period : ChargeProvider → Subscription → Plan → Action BillingDb Bool
charge_period provider s plan = do
  tenant ← gets (λ db. db.tenant)
  now ← gets (λ db. db.now)
  tax_id ← or_fail (document tenant)
  c ← or_fail (usable (provider.charge plan.price_cents (now + 5 * day_ms) tenant tax_id))
  invoice ← create_invoice (due_invoice s plan c now)
  update_subscription s.id (λ x. record x {
    current_period_start = some now;
    current_period_end = some (add_months 1 now);
  })
  audit invoice_created invoice
  pure true

unfoldable pub charge_if_due :
    ChargeProvider → Subscription → Option Plan → Bool → Action BillingDb Bool
charge_if_due provider s found false = pure false
charge_if_due provider s none true = pure false
charge_if_due provider s (some plan) true = charge_period provider s plan

unfoldable pub charge_current : ChargeProvider → Option Subscription → Action BillingDb Bool
charge_current provider none = pure false
charge_current provider (some s) = do
  now ← gets (λ db. db.now)
  found ← gets (find_plan s.plan_id)
  charge_if_due provider s found (is_due provider s now)

-- `generateChargeForTenant`
unfoldable pub generate_charge_for_tenant : ChargeProvider → Action BillingDb Bool
generate_charge_for_tenant provider =
    with_tenant (do found ← gets current_subscription; charge_current provider found)

abbrev newest_invoice : (Invoice → Bool) → BillingDb → Option Invoice
newest_invoice p db = find p db.invoices

abbrev pub open_invoice : BillingDb → Option Invoice
open_invoice db = elim (current_subscription db) [
  | none ↦ none
  | some s ↦ find (is_open_of s.id) db.invoices
]

abbrev pub latest_invoice : BillingDb → Option Invoice
latest_invoice db = elim (current_subscription db) [
  | none ↦ none
  | some s ↦ find (λ i. i.subscription_id == s.id) db.invoices
]

-- `createOrGetInitialInvoice`
unfoldable pub create_or_get_initial_invoice : ChargeProvider → Action BillingDb (Option Invoice)
create_or_get_initial_invoice provider = do
  existing ← gets open_invoice
  elim existing [
    | some i ↦ pure (some i)
    | none ↦ generate_charge_for_tenant provider >> gets latest_invoice
  ]

pub record Tally : Type 0 where
  pub generated : ℕ
  pub skipped : ℕ
  pub failed : ℕ

abbrev pub counted : Result Bool → Tally → Tally
counted (ok true) t = record t { generated = suc t.generated }
counted (ok false) t = record t { skipped = suc t.skipped }
counted (err e) t = record t { failed = suc t.failed }
counted crash t = record t { failed = suc t.failed }

-- The rows of all tenants, each tenant's by its identifier.
abbrev pub put : ℕ → BillingDb → (ℕ → BillingDb) → ℕ → BillingDb
put tenant after rows other = if tenant == other then after else rows other

-- `generateMonthlyCharges` over the active tenants, on the rows of all: an error of one tenant is
-- counted, and the next tenant has its turn on what the earlier ones have left.
unfoldable pub generate_monthly_charges :
    (ℕ → ChargeProvider) → List ℕ → (ℕ → BillingDb) → Tally × (ℕ → BillingDb)
generate_monthly_charges gateway [] rows = (record { generated = 0; skipped = 0; failed = 0 }, rows)
generate_monthly_charges gateway (tenant ∷ tenants) rows =
    let (result, after) = generate_charge_for_tenant (gateway tenant) (rows tenant) in
    let (tally, last) = generate_monthly_charges gateway tenants (put tenant after rows) in
    (counted result tally, last)

-- ===== src/Billing/Tests.antt =====
-- A tenant whose subscription waits for its payment, and instances of the billing theorems there.
use estoque_saas.Base.{ℕ, ltb, mem_nat, ◌≡◌, ◌≢◌, refl, true, false, none, some, [], ◌∷◌}
use estoque_saas.Shared.Errors.{conflict}
use estoque_saas.Shared.Transaction.{ok, err, with_tenant, ◌>>=◌, modify}
use estoque_saas.Billing.Rows.{
  BillingDb, Subscription, pending_payment, active, pix_boleto, Invoice, pending, by_pix, Plan,
}
use estoque_saas.Billing.Webhook.{
  Event, charge_paid, Match, update_invoices, update_subscriptions, on_paid, after_paid,
  Confirmation,
}
use estoque_saas.Billing.Webhook.Handling.{apply_event, handle}
use estoque_saas.Billing.Webhook.Redelivery.{apply_event_once}
use estoque_saas.Billing.Subscriptions.{
  create_subscription, sign_with, change_plan, sign_by_month, status_until_paid,
  update_subscription,
}
use estoque_saas.Billing.Gateway.{
  Provider, refused, RecurringResult, InitialCharge, charge_waiting, Faults,
}
use estoque_saas.Billing.Subscriptions.Plans.{change_plan_lem, Fits, moved_to}
use estoque_saas.Billing.Subscriptions.Unpaid.{create_subscription_unpaid, NeverPaid}
use estoque_saas.Billing.Charges.{
  ChargeProvider, generate_charge_for_tenant, generate_monthly_charges, charge_current,
  charge_if_due, charge_period, is_due,
}
use estoque_saas.Billing.Charges.Periods.{generate_charge_once}
use estoque_saas.Billing.Charges.Run.{
  ending, is_generated, is_skipped, is_thrown, generate_monthly_charges_lem,
}

abbrev pub subscription : Subscription
subscription = record {
  id = 10;
  plan_id = 1;
  status = pending_payment;
  payment_method = pix_boleto;
  gateway_customer_id = none;
  gateway_subscription_id = none;
  current_period_start = none;
  current_period_end = none;
  trial_ends_at = none;
}

abbrev basic : Plan
basic = record {
  id = 1;
  price_cents = 14990;
  limits = record { max_products = 100; max_users = 3; max_stores = 1 };
  gateway_plan_id = none;
}

abbrev invoice : Invoice
invoice = record {
  id = 20;
  subscription_id = 10;
  amount_cents = 14990;
  status = pending;
  due_date = 9;
  paid_at = none;
  payment_method = by_pix;
  gateway_charge_id = some (67 ∷ []);
  gateway_event_id = none;
  pix_qr_code = none;
  boleto_url = none;
}

abbrev pub tenant_db : BillingDb
tenant_db = record {
  subscriptions = subscription ∷ [];
  invoices = invoice ∷ [];
  plans = basic ∷ [];
  tenant = record {
    plan_id = 1;
    suspended = false;
    cnpj = some (49 ∷ []);
    cpf = none;
    address = record {
      zipcode = none;
      street = none;
      number = none;
      complement = none;
      neighborhood = none;
      city = none;
      state = none;
    };
  };
  admin_email = some (97 ∷ []);
  counts = record { products = 2; users = 1; stores = 1 };
  audits = [];
  canceled_at_gateway = [];
  next_id = 30;
  now = 1000;
}

abbrev payment : Event
payment = charge_paid (69 ∷ []) (67 ∷ []) 1000

abbrev matched : Match
matched = record { invoice_id = some 20; subscription_id = some 10 }

abbrev email : Confirmation
email = record { to = 97 ∷ []; amount_cents = 14990; period_start = none; period_end = none }

paid_once : (apply_event payment matched tenant_db).0 ≡ ok (some email)
unfolding apply_event handle on_paid after_paid update_invoices update_subscriptions with_tenant
    ◌>>=◌ modify
paid_once = refl

apply_event_once_example :
    apply_event payment matched (apply_event payment matched tenant_db).1
    ≡ (ok none, (apply_event payment matched tenant_db).1)
apply_event_once_example = apply_event_once payment matched tenant_db (some email) paid_once

change_plan_lem_example :
    (Fits tenant_db.counts basic.limits
      → change_plan 1 tenant_db
        ≡ (ok (record subscription { plan_id = 1 }), moved_to 1 subscription [] tenant_db))
    × (¬ (Fits tenant_db.counts basic.limits) → change_plan 1 tenant_db ≡ (err conflict, tenant_db))
change_plan_lem_example = change_plan_lem tenant_db subscription [] 1 basic refl refl

-- A provider without a recurrence whose gateway refuses every card.
abbrev refusing : Provider
refusing = record {
  is_vindi = false;
  charge_card = λ p t e k. refused (some 402) none;
  charge_pix = none;
}

refusing-NeverPaid : NeverPaid refusing
refusing-NeverPaid = record { by_card = λ p t e k r h. cc; by_pix = λ f h p t e a r x. cc }

abbrev working : Faults
working = record { is_up = λ n. true; cancels = true }

abbrev signed : Subscription
signed = record subscription { plan_id = 1 }

signs : (create_subscription working refusing 1 pix_boleto none tenant_db).0 ≡ ok signed
unfolding create_subscription sign_with sign_by_month update_subscription with_tenant ◌>>=◌ modify
    status_until_paid
signs = refl

create_subscription_unpaid_example : signed.status ≢ active
create_subscription_unpaid_example =
    create_subscription_unpaid working refusing 1 pix_boleto none refusing-NeverPaid tenant_db
      signed signs

abbrev first_charge : InitialCharge
first_charge = record {
  charge_id = 68 ∷ [];
  pix_qr_code = some (81 ∷ []);
  boleto_url = none;
  due_date = none;
  amount_cents = none;
}

abbrev answered : RecurringResult
answered = record {
  gateway_subscription_id = 71 ∷ [];
  gateway_customer_id = 72 ∷ [];
  status = charge_waiting;
  initial_charge = some first_charge;
  initial_charge_status = none;
}

-- The database fails the commit, and the gateway cancels.
abbrev late : Faults
late = record { is_up = λ n. ltb n 3; cancels = true }

-- A gateway that answers every charge.
abbrev issuing : ChargeProvider
issuing = record {
  has_recurrence = false;
  charge = λ amount due t d. some (record { charge_id = 70 ∷ []; pix_qr_code = some (81 ∷ []) });
}

issues : (generate_charge_for_tenant issuing tenant_db).0 ≡ ok true
unfolding generate_charge_for_tenant charge_current charge_if_due charge_period is_due
    update_subscription with_tenant ◌>>=◌ modify
issues = refl

generate_charge_once_example :
    generate_charge_for_tenant issuing (generate_charge_for_tenant issuing tenant_db).1
    ≡ (ok false, (generate_charge_for_tenant issuing tenant_db).1)
generate_charge_once_example = generate_charge_once issuing issuing tenant_db issues

-- Tenants 1 and 2, of three with the same rows.
generate_monthly_charges_lem_example :
    let run = generate_monthly_charges (λ t. issuing) (1 ∷ 2 ∷ []) (λ t. tenant_db) in
    ((t : ℕ)
      → mem_nat t (1 ∷ 2 ∷ []) ≡ true
      → run.1 t ≡ (generate_charge_for_tenant issuing tenant_db).1)
    × ((t : ℕ) → mem_nat t (1 ∷ 2 ∷ []) ≡ false → run.1 t ≡ tenant_db)
    × (run.0.generated ≡ ending is_generated (λ t. issuing) (λ t. tenant_db) (1 ∷ 2 ∷ []))
    × (run.0.skipped ≡ ending is_skipped (λ t. issuing) (λ t. tenant_db) (1 ∷ 2 ∷ []))
    × (run.0.failed ≡ ending is_thrown (λ t. issuing) (λ t. tenant_db) (1 ∷ 2 ∷ []))
generate_monthly_charges_lem_example =
    generate_monthly_charges_lem (λ t. issuing) (1 ∷ 2 ∷ []) (λ t. tenant_db) (refl, (refl, tt))

-- ===== src/Billing/Gateway.antt =====
-- What a payment gateway answers to a checkout (libs/shared/src/payments/provider.ts), and what
-- services/app/src/modules/billing/subscriptions.ts makes of a refusal and of a failed write.
use estoque_saas.Base.{
  ℕ, Bool, true, false, ◌&&◌, ◌||◌, Option, none, some, List, [], ◌∷◌, Text, or_else, any, ◌==◌,
  if◌then◌else◌,
}
use estoque_saas.Shared.Errors.{ErrorCode, payment_required}
use estoque_saas.Shared.Transaction.{Action, Result, ok, err, crash, pure, throw, fail}
use estoque_saas.Billing.Rows.{
  BillingDb, Invoice, InvoiceStatus, InvoiceMethod, pending, paid, failed, Plan, Tenant,
  BillingAddress,
}
use estoque_saas.Billing.Webhook.{resolve_invoice_amount}

-- `RecurringChargeResult`, what a gateway answers when it has created a subscription.
pub data ChargeStatus : Type 0 where
  charge_ok charge_waiting charge_refused : ChargeStatus

pub record InitialCharge : Type 0 where
  pub charge_id : Text
  pub pix_qr_code : Option Text
  pub boleto_url : Option Text
  pub due_date : Option ℕ
  pub amount_cents : Option ℕ

pub record RecurringResult : Type 0 where
  pub gateway_subscription_id : Text
  pub gateway_customer_id : Text
  pub status : ChargeStatus
  pub initial_charge : Option InitialCharge
  pub initial_charge_status : Option ChargeStatus

-- A gateway call answers a result, or throws an error with an HTTP status, which may be an `AppError`.
pub data Reply : Type 0 where
  charged : RecurringResult → Reply
  refused : (status : Option ℕ) (code : Option ErrorCode) → Reply

-- The payment provider that is configured, whose code calls the gateway over HTTP: whether it is
-- Vindi's, what it answers a card, and what it answers a Pix recurrence, if it has one.
pub record Provider : Type 0 where
  pub is_vindi : Bool
  pub charge_card : Plan → Tenant → Text → Text → Reply
  pub charge_pix : Option (Plan → Tenant → Text → BillingAddress → Reply)

abbrev pub rethrow : {A : Type 0} → Option ErrorCode → Action BillingDb A
rethrow none = fail
rethrow (some e) = throw e

abbrev pub is_one_of : List ℕ → Option ℕ → Bool
is_one_of l none = false
is_one_of l (some status) = any (λ x. x == status) l

-- An error of the gateway that becomes PAYMENT_REQUIRED, or is thrown on.
unfoldable pub refusal : {A : Type 0} → Bool → Option ErrorCode → Action BillingDb A
refusal true code = throw payment_required
refusal false code = rethrow code

unfoldable pub card_reply : Bool → Reply → Action BillingDb RecurringResult
card_reply vindi (charged r) = pure r
card_reply vindi (refused status code) =
    refusal
      ((vindi && is_one_of (401 ∷ 402 ∷ 403 ∷ 400 ∷ 422 ∷ []) status)
        || is_one_of (400 ∷ 402 ∷ 422 ∷ []) status)
      code

unfoldable pub pix_reply : Reply → Action BillingDb RecurringResult
pix_reply (charged r) = pure r
pix_reply (refused status code) = refusal (is_one_of (401 ∷ 403 ∷ 402 ∷ 400 ∷ 422 ∷ []) status) code

abbrev pub is_charge_ok : ChargeStatus → Bool
is_charge_ok charge_ok = true
is_charge_ok _ = false

abbrev pub is_charge_refused : ChargeStatus → Bool
is_charge_refused charge_refused = true
is_charge_refused _ = false

abbrev pub invoice_status : Option ChargeStatus → InvoiceStatus
invoice_status (some charge_ok) = paid
invoice_status (some charge_refused) = failed
invoice_status _ = pending

abbrev pub was_paid : Option ChargeStatus → Bool
was_paid none = false
was_paid (some s) = is_charge_ok s

abbrev pub first_invoice :
    RecurringResult → InitialCharge → InvoiceMethod → ℕ → ℕ → ℕ → Option Text → Invoice
first_invoice r c method subscription price now qr = record {
  id = 0;
  subscription_id = subscription;
  amount_cents = resolve_invoice_amount c.amount_cents price;
  status = invoice_status r.initial_charge_status;
  due_date = or_else c.due_date now;
  paid_at = if was_paid r.initial_charge_status then some now else none;
  payment_method = method;
  gateway_charge_id = some c.charge_id;
  gateway_event_id = none;
  pix_qr_code = qr;
  boleto_url = c.boleto_url;
}

-- `cancelSubscription`, where the gateway carries it out.
unfoldable pub cancel_at_gateway : Text → BillingDb → BillingDb
cancel_at_gateway id db = record db { canceled_at_gateway = id ∷ db.canceled_at_gateway }

-- What may go wrong around the writes of a checkout: the database may fail a transaction at any of its
-- steps, for example by its time limit, the last step being the commit, and the gateway may fail to
-- cancel.
pub record Faults : Type 0 where
  pub is_up : ℕ → Bool
  pub cancels : Bool

-- `cancelUnpersistedSubscription`: a failure to cancel is logged and swallowed.
unfoldable pub try_cancel : Faults → Text → BillingDb → BillingDb
try_cancel faults id db = if faults.cancels then cancel_at_gateway id db else db

-- What a failed write is followed by.
unfoldable pub undo : {A : Type 0} → Faults → Text → Result A × BillingDb → Result A × BillingDb
undo faults id (ok a, db) = (ok a, db)
undo faults id (err e, db) = (err e, try_cancel faults id db)
undo faults id (crash, db) = (crash, try_cancel faults id db)

unfoldable pub or_cancel : {A : Type 0} → Faults → Text → Action BillingDb A → Action BillingDb A
or_cancel faults id m db = undo faults id (m db)

abbrev pub reached : Bool → Action BillingDb (Unit {0})
reached true = pure tt
reached false = fail

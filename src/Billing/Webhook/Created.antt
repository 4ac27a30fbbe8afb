-- ===== src/Billing/Webhook/Created.antt =====
-- services/app/src/modules/billing/webhook.ts: the event of a charge that the gateway has created.
use estoque_saas.Base.{
  ℕ, Bool, false, not, ◌&&◌, ◌||◌, Option, none, some, Text, truthy, opt_text_eq, find, ◌==◌,
  if◌then◌else◌,
}
use estoque_saas.Shared.Transaction.{Action, ◌>>=◌, ◌>>◌, pure, fail, gets}
use estoque_saas.Billing.Rows.{BillingDb, Invoice, pending, Plan, find_plan, invoice_created}
use estoque_saas.Billing.Webhook.{
  Confirmation, CreatedCharge, audit, create_invoice, resolve_invoice_amount, update_invoices,
}

-- A created charge whose invoice is there already: the QR code if it was missing, and the amount.
abbrev pub fills_qr : CreatedCharge → Invoice → Bool
fills_qr c i = not (truthy i.pix_qr_code) && truthy c.pix_qr_code

abbrev pub fixes_amount : CreatedCharge → Invoice → Bool
fixes_amount c i = elim c.amount_cents [
  | none ↦ false
  | some amount ↦ not (amount == i.amount_cents)
]

abbrev pub completed : CreatedCharge → Invoice → Invoice → Invoice
completed c existing i = record i {
  pix_qr_code = if fills_qr c existing then c.pix_qr_code else i.pix_qr_code;
  amount_cents =
      if fixes_amount c existing
      then resolve_invoice_amount c.amount_cents i.amount_cents
      else i.amount_cents;
}

unfoldable pub complete_invoice : CreatedCharge → Invoice → Action BillingDb (Option Confirmation)
complete_invoice c existing =
    if fills_qr c existing || fixes_amount c existing
    then update_invoices (λ i. i.id == existing.id) (completed c existing) >> pure none
    else pure none

abbrev pub plan_of_subscription : ℕ → BillingDb → Option Plan
plan_of_subscription id db = elim (find (λ s. s.id == id) db.subscriptions) [
  | none ↦ none
  | some s ↦ find_plan s.plan_id db
]

-- The amount of a new invoice, from the event or from the plan.
abbrev pub new_amount : CreatedCharge → Option Plan → Option ℕ
new_amount c none = c.amount_cents
new_amount c (some plan) = some (resolve_invoice_amount c.amount_cents plan.price_cents)

abbrev pub new_invoice : CreatedCharge → ℕ → ℕ → Invoice
new_invoice c subscription amount = record {
  id = 0;
  subscription_id = subscription;
  amount_cents = amount;
  status = pending;
  due_date = c.due_date;
  paid_at = none;
  payment_method = c.method;
  gateway_charge_id = some c.charge_id;
  gateway_event_id = some c.event_id;
  pix_qr_code = c.pix_qr_code;
  boleto_url = c.payment_url;
}

unfoldable pub record_invoice :
    CreatedCharge → ℕ → Option ℕ → Action BillingDb (Option Confirmation)
record_invoice c subscription none = fail
record_invoice c subscription (some amount) = do
  id ← create_invoice (new_invoice c subscription amount)
  audit invoice_created id
  pure none

abbrev pub charged_as : Text → Invoice → Bool
charged_as charge i = opt_text_eq i.gateway_charge_id (some charge)

unfoldable pub on_created : CreatedCharge → ℕ → Action BillingDb (Option Confirmation)
on_created c subscription = do
  existing ← gets (λ db. find (charged_as c.charge_id) db.invoices)
  plan ← gets (plan_of_subscription subscription)
  elim existing [
    | some i ↦ complete_invoice c i
    | none ↦ record_invoice c subscription (new_amount c plan)
  ]

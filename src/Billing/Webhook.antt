-- ===== src/Billing/Webhook.antt =====
-- services/app/src/modules/billing/webhook.ts and invoice-amount.ts: what a gateway's event does to the
-- invoices and the subscription of the tenant it belongs to. An `updateMany` whose `where` says
-- "not yet applied" is the guard against a second delivery; its count says whether it changed a row.
use estoque_saas.Base.{
  ℕ, zero, suc, ◌+◌, Bool, true, false, not, ◌&&◌, ◌||◌, Option, none, some, List, [], ◌∷◌, Text,
  truthy, text_eq, opt_text_eq, is_some, find, any, select, length, update_where, ◌==◌,
  if◌then◌else◌,
}
use estoque_saas.Shared.Errors.{unauthorized}
use estoque_saas.Shared.Transaction.{
  Action, Result, ok, err, crash, ◌>>=◌, ◌>>◌, pure, fail, gets, modify, throw_if, with_tenant,
}
use estoque_saas.Billing.Rows.{
  BillingDb, Invoice, InvoiceStatus, InvoiceMethod, Subscription, SubscriptionStatus, pending, paid,
  failed, active, past_due, canceled, is_open, is_failed, is_canceled, Plan, find_plan,
  BillingEntity, invoice_created, invoice_updated, subscription_updated,
}
pub mod Created
pub mod Handling
pub mod Guards
pub mod Redelivery

-- `resolveInvoiceAmount`: what the gateway charged, or else the price of the plan.
abbrev pub resolve_invoice_amount : Option ℕ → ℕ → ℕ
resolve_invoice_amount none price = price
resolve_invoice_amount (some amount) price = amount

-- `charge.created`
pub record CreatedCharge : Type 0 where
  pub event_id : Text
  pub charge_id : Text
  pub gateway_subscription_id : Text
  pub amount_cents : Option ℕ
  pub due_date : ℕ
  pub method : InvoiceMethod
  pub payment_url : Option Text
  pub pix_qr_code : Option Text

-- `PaymentWebhookEvent`
pub data Event : Type 0 where
  ignored : Text → Event
  charge_created : CreatedCharge → Event
  charge_pix_updated : (event_id charge_id qr : Text) (url : Option Text) → Event
  charge_paid : (event_id charge_id : Text) (at : ℕ) → Event
  charge_failed : (event_id charge_id : Text) → Event
  subscription_canceled : (event_id gateway_subscription_id : Text) → Event

-- What the lookup by gateway reference finds: an invoice with its subscription, or a subscription.
pub record Match : Type 0 where
  pub invoice_id : Option ℕ
  pub subscription_id : Option ℕ

-- The email of a confirmed payment.
pub record Confirmation : Type 0 where
  pub to : Text
  pub amount_cents : ℕ
  pub period_start : Option ℕ
  pub period_end : Option ℕ

abbrev pub audit : BillingEntity → ℕ → Action BillingDb (Unit {0})
audit entity id =
    modify λ db. record db { audits = record { entity = entity; entity_id = id } ∷ db.audits }

-- `tx.invoice.updateMany`, which answers how many rows it changed.
unfoldable pub update_invoices : (Invoice → Bool) → (Invoice → Invoice) → Action BillingDb ℕ
update_invoices p f db =
    (ok (length (select p db.invoices)), record db { invoices = update_where p f db.invoices })

-- `tx.subscription.updateMany`
unfoldable pub update_subscriptions :
    (Subscription → Bool) → (Subscription → Subscription) → Action BillingDb ℕ
update_subscriptions p f db = (
  ok (length (select p db.subscriptions)),
  record db { subscriptions = update_where p f db.subscriptions },
)

abbrev pub set_status : SubscriptionStatus → Subscription → Subscription
set_status status s = record s { status = status }

-- `gateway_event_id` is unique: a write that gives an event to a second invoice throws.
abbrev pub taken_event : Text → (Invoice → Bool) → BillingDb → Bool
taken_event event written db =
    any (λ i. opt_text_eq i.gateway_event_id (some event) && not (written i)) db.invoices
    && any written db.invoices

abbrev pub create_invoice : Invoice → Action BillingDb ℕ
create_invoice i db =
    if any (λ x. is_some i.gateway_event_id && opt_text_eq x.gateway_event_id i.gateway_event_id)
      db.invoices
    then (crash, db)
    else (
      ok db.next_id,
      record db { invoices = record i { id = db.next_id } ∷ db.invoices; next_id = suc db.next_id },
    )

pub on_pix_updated : ℕ → Text → Option Text → Action BillingDb (Option Confirmation)
on_pix_updated invoice qr url = do
  update_invoices
      (λ i. (i.id == invoice) && (is_open i.status && not (opt_text_eq i.pix_qr_code (some qr))))
      (λ i. record i {
        pix_qr_code = some qr;
        boleto_url = if truthy url then url else i.boleto_url;
      })
  pure none

-- The two reads that the confirmation's email needs.
abbrev confirmation_of : ℕ → ℕ → BillingDb → Option Confirmation
confirmation_of invoice subscription db = elim (find (λ i. i.id == invoice) db.invoices) [
  | none ↦ none
  | some i ↦ elim db.admin_email [
    | none ↦ none
    | some email ↦
        let s = find (λ s. s.id == subscription) db.subscriptions in
        some (record {
          to = email;
          amount_cents = i.amount_cents;
          period_start = elim s [ none ↦ none | some s ↦ s.current_period_start ];
          period_end = elim s [ none ↦ none | some s ↦ s.current_period_end ];
        })
  ]
]

-- What follows the change of an invoice: its subscription takes a status, and the change is audited.
abbrev follow : ℕ → ℕ → SubscriptionStatus → Action BillingDb (Unit {0})
follow invoice subscription status = do
  update_subscriptions (λ s. s.id == subscription) (set_status status)
  audit invoice_updated invoice

abbrev pub unpaid_by : Text → ℕ → Invoice → Bool
unpaid_by event invoice i = (i.id == invoice) && not (opt_text_eq i.gateway_event_id (some event))

unfoldable pub after_paid : ℕ → Option ℕ → ℕ → Action BillingDb (Option Confirmation)
after_paid invoice subscription zero = pure none
after_paid invoice none (suc n) = pure none
after_paid invoice (some subscription) (suc n) = do
  follow invoice subscription active
  gets (confirmation_of invoice subscription)

unfoldable pub on_paid : Text → ℕ → Option ℕ → ℕ → Action BillingDb (Option Confirmation)
on_paid event invoice subscription at = do
  taken ← gets (taken_event event (unpaid_by event invoice))
  if taken then fail else pure tt
  count ←
      update_invoices (unpaid_by event invoice)
        (λ i. record i { status = paid; paid_at = some at; gateway_event_id = some event })
  after_paid invoice subscription count

pub after_failed : ℕ → Option ℕ → ℕ → Action BillingDb (Option Confirmation)
after_failed invoice subscription zero = pure none
after_failed invoice none (suc n) = pure none
after_failed invoice (some subscription) (suc n) = follow invoice subscription past_due >> pure none

pub on_failed : ℕ → Option ℕ → Action BillingDb (Option Confirmation)
on_failed invoice subscription = do
  count ←
      update_invoices (λ i. (i.id == invoice) && not (is_failed i.status))
        (λ i. record i { status = failed })
  after_failed invoice subscription count

pub after_canceled : ℕ → ℕ → Action BillingDb (Option Confirmation)
after_canceled subscription zero = pure none
after_canceled subscription (suc n) = audit subscription_updated subscription >> pure none

pub on_canceled : ℕ → Action BillingDb (Option Confirmation)
on_canceled subscription = do
  count ←
      update_subscriptions (λ s. (s.id == subscription) && not (is_canceled s.status))
        (set_status canceled)
  after_canceled subscription count

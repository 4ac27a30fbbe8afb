-- ===== src/Billing/Rows.antt =====
-- The rows of the billing tables (libs/shared/prisma/schema.prisma) of one tenant. The newest row of a
-- table stands first, which is the order `createdAt: "desc"` of the queries. Texts that a gateway
-- hands out stay texts; amounts are cents.
use estoque_saas.Base.{
  ℕ, Bool, true, false, Option, none, some, List, [], ◌∷◌, Text, find, truthy, ◌==◌, if◌then◌else◌,
}
use estoque_saas.Shared.PlanLimits.{PlanLimits, ResourceCounts}

pub data SubscriptionStatus : Type 0 where
  trialing active past_due canceled pending_payment : SubscriptionStatus

pub data PaymentMethod : Type 0 where
  card pix_boleto : PaymentMethod

pub record Subscription : Type 0 where
  pub id : ℕ
  pub plan_id : ℕ
  pub status : SubscriptionStatus
  pub payment_method : PaymentMethod
  pub gateway_customer_id : Option Text
  pub gateway_subscription_id : Option Text
  pub current_period_start : Option ℕ
  pub current_period_end : Option ℕ
  pub trial_ends_at : Option ℕ

pub data InvoiceStatus : Type 0 where
  pending paid failed overdue : InvoiceStatus

pub data InvoiceMethod : Type 0 where
  by_card by_pix by_boleto : InvoiceMethod

pub record Invoice : Type 0 where
  pub id : ℕ
  pub subscription_id : ℕ
  pub amount_cents : ℕ
  pub status : InvoiceStatus
  pub due_date : ℕ
  pub paid_at : Option ℕ
  pub payment_method : InvoiceMethod
  pub gateway_charge_id : Option Text
  pub gateway_event_id : Option Text
  pub pix_qr_code : Option Text
  pub boleto_url : Option Text

pub record Plan : Type 0 where
  pub id : ℕ
  pub price_cents : ℕ
  pub limits : PlanLimits
  -- What `getVindiPlanId` finds in the environment for the plan's name.
  pub gateway_plan_id : Option Text

-- The address columns of a tenant.
pub record TenantAddress : Type 0 where
  pub zipcode : Option Text
  pub street : Option Text
  pub number : Option Text
  pub complement : Option Text
  pub neighborhood : Option Text
  pub city : Option Text
  pub state : Option Text

pub record Tenant : Type 0 where
  pub plan_id : ℕ
  pub suspended : Bool
  pub cnpj : Option Text
  pub cpf : Option Text
  pub address : TenantAddress

pub data BillingEntity : Type 0 where
  invoice_created invoice_updated subscription_updated : BillingEntity

pub record BillingAudit : Type 0 where
  pub entity : BillingEntity
  pub entity_id : ℕ

-- The tables of a tenant, the plans, the tenant's counts, the clock, and the calls that went out to
-- the gateway to cancel a subscription.
pub record BillingDb : Type 0 where
  pub subscriptions : List Subscription
  pub invoices : List Invoice
  pub plans : List Plan
  pub tenant : Tenant
  pub admin_email : Option Text
  pub counts : ResourceCounts
  pub audits : List BillingAudit
  pub canceled_at_gateway : List Text
  pub next_id : ℕ
  pub now : ℕ

-- `findFirst({ orderBy: { createdAt: "desc" } })`
abbrev pub current_subscription : BillingDb → Option Subscription
current_subscription db = elim db.subscriptions [ [] ↦ none | s ∷ ss ↦ some s ]

abbrev pub find_plan : ℕ → BillingDb → Option Plan
find_plan id db = find (λ p. p.id == id) db.plans

abbrev pub is_open : InvoiceStatus → Bool
is_open pending = true
is_open overdue = true
is_open _ = false

abbrev pub is_failed : InvoiceStatus → Bool
is_failed failed = true
is_failed _ = false

abbrev pub is_trialing : SubscriptionStatus → Bool
is_trialing trialing = true
is_trialing _ = false

abbrev pub is_active : SubscriptionStatus → Bool
is_active active = true
is_active _ = false

abbrev pub is_canceled : SubscriptionStatus → Bool
is_canceled canceled = true
is_canceled _ = false

abbrev pub is_pending_payment : SubscriptionStatus → Bool
is_pending_payment pending_payment = true
is_pending_payment _ = false

-- `BillingAddress`
pub record BillingAddress : Type 0 where
  pub zipcode : Text
  pub street : Text
  pub number : Text
  pub complement : Option Text
  pub neighborhood : Option Text
  pub city : Text
  pub state : Text

abbrev filled : Option Text → Option Text
filled t = if truthy t then t else none

infixl 5 ◌>>=◌
abbrev ◌>>=◌ : {A B : Type 0} → Option A → (A → Option B) → Option B
none >>= f = none
some a >>= f = f a

-- `tenantBillingAddress`
unfoldable pub tenant_billing_address : TenantAddress → Option BillingAddress
tenant_billing_address a = do
  zipcode ← filled a.zipcode
  street ← filled a.street
  number ← filled a.number
  city ← filled a.city
  state ← filled a.state
  some (record {
    zipcode = zipcode;
    street = street;
    number = number;
    complement = a.complement;
    neighborhood = a.neighborhood;
    city = city;
    state = state;
  })

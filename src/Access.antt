-- ===== src/Access.antt =====
-- Who may use the system: services/app/src/modules/auth/rbac.ts, and the access that the platform's
-- owner grants and takes back in services/app/src/modules/admin/tenants.ts.
use estoque_saas.Base.{
  ℕ, ◌+◌, ◌*◌, Bool, true, false, not, ◌&&◌, ◌||◌, Option, none, some, List, [], ◌∷◌, Text, truthy,
  is_some, if◌then◌else◌,
}
use estoque_saas.Shared.Errors.{unauthorized, forbidden, payment_required, not_found, conflict}
use estoque_saas.Shared.Rbac.{Role, Permission, can}
use estoque_saas.Shared.Dates.{add_months, day_ms}
use estoque_saas.Shared.Transaction.{
  Action, Result, ok, err, crash, ◌>>=◌, ◌>>◌, pure, gets, modify, or_throw, throw_if, with_tenant,
}
use estoque_saas.Billing.Rows.{
  BillingDb, Subscription, SubscriptionStatus, trialing, active, past_due, canceled,
  pending_payment, current_subscription, is_trialing, is_active,
}
use estoque_saas.Billing.Subscriptions.{update_subscription, after_now}
pub mod Blocking
pub mod Grants
pub mod Tokens
pub mod ManagerPin
pub mod Invites
pub mod Tests

-- BLOCKED_SUBSCRIPTION_STATUSES
unfoldable pub is_blocked_status : SubscriptionStatus → Bool
is_blocked_status pending_payment = true
is_blocked_status trialing = true
is_blocked_status _ = false

pub blocked_by : Option Subscription → ℕ → Action BillingDb Bool
blocked_by none now = pure false
blocked_by (some s) now =
    if is_trialing s.status && is_some s.trial_ends_at
    then if after_now s.trial_ends_at now
      then pure false
      else update_subscription s.id
          (λ x. record x { status = pending_payment; trial_ends_at = none })
        >> pure true
    else pure (is_blocked_status s.status)

-- `isSubscriptionBlocked`
unfoldable pub is_subscription_blocked : Action BillingDb Bool
is_subscription_blocked =
    with_tenant
      (do found ← gets current_subscription; now ← gets (λ db. db.now); blocked_by found now)

-- The user of a session, whose fields the session's token may lack.
pub record SessionUser : Type 0 where
  pub id : Option Text
  pub tenant_id : Option Text
  pub role : Option Role

pub record SessionContext : Type 0 where
  pub tenant_id : Text
  pub user_id : Text
  pub role : Role

abbrev filled : Option Text → Option Text
filled t = if truthy t then t else none

-- `requireSession`; `allow_pending_payment` is its option.
unfoldable pub require_session : Option SessionUser → Bool → Action BillingDb SessionContext
require_session session allow_pending_payment = do
  user ← or_throw session unauthorized
  id ← or_throw (filled user.id) unauthorized
  tenant ← or_throw (filled user.tenant_id) unauthorized
  role ← or_throw user.role unauthorized
  blocked ← elim allow_pending_payment [ true ↦ pure false | false ↦ is_subscription_blocked ]
  throw_if blocked payment_required
  pure (record { tenant_id = tenant; user_id = id; role = role })

-- `requireRole`
unfoldable pub require_role :
    Permission → Option SessionUser → Bool → Action BillingDb SessionContext
require_role permission session allow_pending_payment = do
  ctx ← require_session session allow_pending_payment
  throw_if (not (can ctx.role permission)) forbidden
  pure ctx

abbrev pub has_gateway : Subscription → Bool
has_gateway s = truthy s.gateway_subscription_id

-- `grantTrial`
unfoldable pub grant_trial : ℕ → Action BillingDb Subscription
grant_trial days = do
  found ← gets current_subscription
  s ← or_throw found not_found
  throw_if (is_active s.status) conflict
  now ← gets (λ db. db.now)
  update_subscription s.id
      (λ x. record x { status = trialing; trial_ends_at = some (now + days * day_ms) })

-- `grantAccess`
unfoldable pub grant_access : Action BillingDb Subscription
grant_access = do
  found ← gets current_subscription
  s ← or_throw found not_found
  throw_if (is_active s.status && has_gateway s) conflict
  now ← gets (λ db. db.now)
  update_subscription s.id (λ x. record x {
    status = active;
    trial_ends_at = none;
    current_period_start = some now;
    current_period_end = some (add_months 120 now);
  })

-- `revokeAccess`
unfoldable pub revoke_access : Action BillingDb Subscription
revoke_access = do
  found ← gets current_subscription
  s ← or_throw found not_found
  throw_if (not (is_active s.status) || has_gateway s) conflict
  update_subscription s.id (λ x. record x {
    status = pending_payment;
    trial_ends_at = none;
    current_period_start = none;
    current_period_end = none;
  })

-- `endTrial`
unfoldable pub end_trial : Action BillingDb Subscription
end_trial = do
  found ← gets current_subscription
  s ← or_throw found not_found
  throw_if (not (is_trialing s.status)) conflict
  update_subscription s.id (λ x. record x { status = pending_payment; trial_ends_at = none })

-- `suspendTenant` and `reactivateTenant`, on a tenant that is there.
unfoldable pub suspend_tenant : Action BillingDb (Unit {0})
suspend_tenant =
    modify λ db. let t = db.tenant in record db { tenant = record t { suspended = true } }

unfoldable pub reactivate_tenant : Action BillingDb (Unit {0})
reactivate_tenant =
    modify λ db. let t = db.tenant in record db { tenant = record t { suspended = false } }

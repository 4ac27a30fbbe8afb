-- ===== src/Access/Tests.antt =====
-- The guard of a route and the owner's grants, on a tenant whose subscription waits for its payment.
use estoque_saas.Base.{◌≡◌, ◌↔◌, ◌⊎◌, refl, true, false, not, ◌&&◌, ◌||◌, some, [], ◌∷◌}
use estoque_saas.Shared.Rbac.{operador, stock_write}
use estoque_saas.Shared.Transaction.{ok}
use estoque_saas.Billing.Rows.{is_trialing, is_active}
use estoque_saas.Billing.Tests.{tenant_db, subscription}
use estoque_saas.Access.{
  is_subscription_blocked, require_role, grant_trial, grant_access, revoke_access, end_trial,
  has_gateway, SessionContext,
}
use estoque_saas.Access.Blocking.{
  is_subscription_blocked_iff, require_role_iff, Unpaid, Admits, session_of,
}
use estoque_saas.Access.Grants.{grants_unblock}

is_subscription_blocked_iff_example :
    (((is_subscription_blocked tenant_db).0 ≡ ok true) ↔ Unpaid subscription 1000)
    × (((is_subscription_blocked tenant_db).0 ≡ ok true)
        ⊎ ((is_subscription_blocked tenant_db).0 ≡ ok false))
is_subscription_blocked_iff_example = is_subscription_blocked_iff tenant_db subscription [] refl

abbrev operator : SessionContext
operator = record { tenant_id = 2 ∷ []; user_id = 1 ∷ []; role = operador }

require_role_iff_example :
    ((require_role stock_write (some (session_of operator)) true tenant_db).0 ≡ ok operator)
    ↔ Admits stock_write (some (session_of operator)) true tenant_db operator
require_role_iff_example =
    require_role_iff stock_write (some (session_of operator)) true tenant_db operator

grants_unblock_example :
    ((is_active subscription.status ≡ false)
      → (is_subscription_blocked (grant_trial 3 tenant_db).1).0 ≡ ok false)
    × ((is_active subscription.status && has_gateway subscription) ≡ false
        → (is_subscription_blocked (grant_access tenant_db).1).0 ≡ ok false)
    × ((not (is_active subscription.status) || has_gateway subscription) ≡ false
        → (is_subscription_blocked (revoke_access tenant_db).1).0 ≡ ok true)
    × (not (is_trialing subscription.status) ≡ false
        → (is_subscription_blocked (end_trial tenant_db).1).0 ≡ ok true)
grants_unblock_example = grants_unblock tenant_db subscription [] refl 2

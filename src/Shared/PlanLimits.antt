-- ===== src/Shared/PlanLimits.antt =====
-- libs/shared/src/plan-limits/index.ts: the limits of a plan on products, users and stores.
use estoque_saas.Base.{ℕ, ◌+◌, ◌≤◌, ◌<◌, ◌≡◌, ◌↔◌, List, [], ◌∷◌, ◌++◌, arith, ltb, if◌then◌else◌}
use estoque_saas.Shared.Errors.{plan_limit_reached}
use estoque_saas.Shared.Transaction.{Result, ok, err}

pub data Resource : Type 0 where
  products users stores : Resource

pub record PlanLimits : Type 0 where
  pub max_products : ℕ
  pub max_users : ℕ
  pub max_stores : ℕ

-- LIMIT_KEY_BY_RESOURCE
unfoldable pub limit_of : Resource → PlanLimits → ℕ
limit_of products l = l.max_products
limit_of users l = l.max_users
limit_of stores l = l.max_stores

unfoldable pub assert_within_plan_limit : Resource → ℕ → PlanLimits → ℕ → Result (Unit {0})
assert_within_plan_limit r current limits increment =
    if ltb (limit_of r limits) (current + increment) then err plan_limit_reached else ok tt

pub record ResourceCounts : Type 0 where
  pub products : ℕ
  pub users : ℕ
  pub stores : ℕ

unfoldable pub count_of : Resource → ResourceCounts → ℕ
count_of products c = c.products
count_of users c = c.users
count_of stores c = c.stores

-- The violations, in the order in which they are pushed; none is the source's `true`.
unfoldable pub fits_within_plan : ResourceCounts → PlanLimits → List Resource
fits_within_plan c target =
    (if ltb target.max_products c.products then products ∷ [] else [])
    ++ ((if ltb target.max_users c.users then users ∷ [] else [])
        ++ (if ltb target.max_stores c.stores then stores ∷ [] else []))

-- A creation passes exactly when the new count stays within the limit of its own resource, and is
-- refused with PLAN_LIMIT_REACHED exactly when it does not.
pub assert_within_plan_limit_iff :
    (r : Resource) (current : ℕ) (limits : PlanLimits) (increment : ℕ)
    → ((assert_within_plan_limit r current limits increment ≡ ok tt)
        ↔ (current + increment ≤ limit_of r limits))
      × ((assert_within_plan_limit r current limits increment ≡ err plan_limit_reached)
          ↔ (limit_of r limits < current + increment))
unfolding assert_within_plan_limit
assert_within_plan_limit_iff r current limits increment = ground arith

-- A tenant fits a plan exactly when each of its counts is within the plan's limit.
pub fits_within_plan_iff :
    (c : ResourceCounts) (target : PlanLimits)
    → (fits_within_plan c target ≡ []) ↔ (
        (c.products ≤ target.max_products)
        × (c.users ≤ target.max_users)
        × (c.stores ≤ target.max_stores))
unfolding fits_within_plan
fits_within_plan_iff c target = ground arith

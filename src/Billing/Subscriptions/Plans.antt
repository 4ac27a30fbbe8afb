-- ===== src/Billing/Subscriptions/Plans.antt =====
-- A change of plan.
use estoque_saas.Base.{
  ℕ, ◌≡◌, ◌≤◌, refl, ◌⊎◌, true, false, some, List, [], ◌∷◌, arith, inl, inr, update_where, ◌==◌,
}
use estoque_saas.Shared.Errors.{conflict}
use estoque_saas.Shared.PlanLimits.{
  Resource, PlanLimits, ResourceCounts, fits_within_plan, fits_within_plan_iff,
}
use estoque_saas.Shared.Transaction.{
  ok, err, ◌>>=◌, pure, gets, modify, or_throw, or_fail, throw_if, continue, with_tenant, settle,
}
use estoque_saas.Billing.Rows.{BillingDb, Subscription, Plan, find_plan, current_subscription}
use estoque_saas.Billing.Current.{update-current}
use estoque_saas.Billing.Subscriptions.{change_plan, violates}

abbrev pub Fits : ResourceCounts → PlanLimits → Type 0
Fits c l = (c.products ≤ l.max_products) × (c.users ≤ l.max_users) × (c.stores ≤ l.max_stores)

-- The tables after a change of plan.
abbrev pub moved_to : ℕ → Subscription → List Subscription → BillingDb → BillingDb
moved_to plan s ss db =
    let t = db.tenant in
    record db {
      subscriptions =
          record s { plan_id = plan }
          ∷ update_where (λ x. x.id == s.id) (λ x. record x { plan_id = plan }) ss;
      tenant = record t { plan_id = plan };
    }

violates-cases : (l : List Resource) → (l ≡ []) ⊎ (violates l ≡ true)
violates-cases [] = inl refl
violates-cases (r ∷ rs) = inr refl

-- A tenant with a subscription changes to a plan exactly when its products, users and stores fit: the
-- subscription and the tenant then both name the new plan. Otherwise the answer is CONFLICT and no
-- table changes.
pub change_plan_lem :
    (db : BillingDb) (s : Subscription) (ss : List Subscription) (target : ℕ) (p : Plan)
    → db.subscriptions ≡ s ∷ ss
    → find_plan target db ≡ some p
    → (Fits db.counts p.limits
        → change_plan target db ≡ (ok (record s { plan_id = target }), moved_to target s ss db))
      × (¬ (Fits db.counts p.limits) → change_plan target db ≡ (err conflict, db))
unfolding change_plan ◌>>=◌ continue gets or_fail or_throw throw_if modify pure with_tenant settle
change_plan_lem db s ss target p e found =
    let fits = fits_within_plan_iff db.counts p.limits in
    let current : current_subscription db ≡ some s = rw e refl in
    let wrote = update-current (λ x. record x { plan_id = target }) s ss db e in
    (
      λ f.
          let guard : violates (fits_within_plan db.counts p.limits) ≡ false = rw (fits.1 f) refl in
          rw found (rw current (rw guard (rw wrote refl))),
      λ n.
          let guard : violates (fits_within_plan db.counts p.limits) ≡ true =
            elim (violates-cases (fits_within_plan db.counts p.limits)) [
              | inl empty ↦ ground arith
              | inr v ↦ v
            ] in
          rw found (rw current (rw guard refl)),
    )

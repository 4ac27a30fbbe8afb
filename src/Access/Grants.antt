-- ===== src/Access/Grants.antt =====
-- What the platform's owner grants and takes back.
use estoque_saas.Base.{
  ℕ, suc, ◌+◌, ◌*◌, true, false, not, ◌&&◌, ◌||◌, ◌≡◌, refl, none, some, List, ◌∷◌, arith,
}
use estoque_saas.Shared.Errors.{conflict}
use estoque_saas.Shared.Dates.{day_ms, add_months}
use estoque_saas.Shared.Transaction.{Result, ok, err, ◌>>=◌, gets, continue, or_throw, throw_if}
use estoque_saas.Billing.Rows.{
  BillingDb, Subscription, trialing, active, pending_payment, is_active, is_trialing,
}
use estoque_saas.Billing.Subscriptions.{update_subscription}
use estoque_saas.Billing.Current.{update-current}
use estoque_saas.Access.{
  is_subscription_blocked, grant_trial, grant_access, revoke_access, end_trial, has_gateway,
}
use estoque_saas.Access.Blocking.{is_subscription_blocked_iff, Unpaid, expire}

-- The new subscription after a step that writes the newest one.
abbrev Wrote : Result Subscription × BillingDb → BillingDb → Subscription → Type 0
Wrote r db s =
    (r.0 ≡ ok s) × (r.1.now ≡ db.now) × (ss : List Subscription) × (r.1.subscriptions ≡ s ∷ ss)

module _ (db : BillingDb) (r : Result Subscription × BillingDb) (s : Subscription)
    (w : Wrote r db s) where
  passes : ¬ (Unpaid s db.now) → (is_subscription_blocked r.1).0 ≡ ok false
  passes n = let iff = is_subscription_blocked_iff r.1 s w.2 w.3 in ground arith

  stops : Unpaid s db.now → (is_subscription_blocked r.1).0 ≡ ok true
  stops u = let iff = is_subscription_blocked_iff r.1 s w.2 w.3 in ground arith

module _ (db : BillingDb) (s : Subscription) (ss : List Subscription)
    (e : db.subscriptions ≡ s ∷ ss) where
  write-current : (f : Subscription → Subscription) → Wrote (update_subscription s.id f db) db (f s)
  write-current f = let done = update-current f s ss db e in rw done (refl, refl, _, refl)

  -- A paying customer is never touched: a trial is refused to an active subscription, the free
  -- access and its end to one that is active at the gateway, and the end of a trial to one that is
  -- not on trial; each refusal is CONFLICT and changes no table.
  pub grants_refused :
      (days : ℕ)
      → (s.status ≡ active → grant_trial days db ≡ (err conflict, db))
        × (s.status ≡ active → has_gateway s ≡ true → grant_access db ≡ (err conflict, db))
        × (has_gateway s ≡ true → revoke_access db ≡ (err conflict, db))
        × (is_trialing s.status ≡ false → end_trial db ≡ (err conflict, db))
  unfolding grant_trial grant_access revoke_access end_trial ◌>>=◌ continue gets or_throw throw_if
  grants_refused days = (
    λ a. let guard : is_active s.status ≡ true = ground arith in rw e (rw guard refl),
    λ a g.
        let guard : (is_active s.status && has_gateway s) ≡ true = ground arith in
        rw e (rw guard refl),
    λ g.
        let guard : (not (is_active s.status) || has_gateway s) ≡ true = ground arith in
        rw e (rw guard refl),
    λ t. rw e (rw t refl),
  )

  trial_row : ℕ → Subscription → Subscription
  trial_row days x = record x { status = trialing; trial_ends_at = some (db.now + days * day_ms) }

  trial-writes :
      (days : ℕ)
      → is_active s.status ≡ false
      → grant_trial days db ≡ update_subscription s.id (trial_row days) db
  unfolding grant_trial ◌>>=◌ continue gets or_throw throw_if trial_row
  trial-writes days a = rw e (rw a refl)

  access_row : Subscription → Subscription
  access_row x = record x {
    status = active;
    trial_ends_at = none;
    current_period_start = some db.now;
    current_period_end = some (add_months 120 db.now);
  }

  access-writes :
      (is_active s.status && has_gateway s) ≡ false
      → grant_access db ≡ update_subscription s.id access_row db
  unfolding grant_access ◌>>=◌ continue gets or_throw throw_if access_row
  access-writes a = rw e (rw a refl)

  revoked_row : Subscription → Subscription
  revoked_row x = record x {
    status = pending_payment;
    trial_ends_at = none;
    current_period_start = none;
    current_period_end = none;
  }

  revoke-writes :
      (not (is_active s.status) || has_gateway s) ≡ false
      → revoke_access db ≡ update_subscription s.id revoked_row db
  unfolding revoke_access ◌>>=◌ continue gets or_throw throw_if revoked_row
  revoke-writes a = rw e (rw a refl)

  end-writes :
      not (is_trialing s.status) ≡ false → end_trial db ≡ update_subscription s.id expire db
  unfolding end_trial ◌>>=◌ continue gets or_throw throw_if
  end-writes a = rw e (rw a refl)

  -- What a grant does to the guard of the routes: a trial of at least a day and the free access let the
  -- tenant in, and the end of either keeps it out.
  pub grants_unblock :
      (days : ℕ)
      → ((is_active s.status ≡ false)
          → (is_subscription_blocked (grant_trial (suc days) db).1).0 ≡ ok false)
        × ((is_active s.status && has_gateway s) ≡ false
            → (is_subscription_blocked (grant_access db).1).0 ≡ ok false)
        × ((not (is_active s.status) || has_gateway s) ≡ false
            → (is_subscription_blocked (revoke_access db).1).0 ≡ ok true)
        × (not (is_trialing s.status) ≡ false
            → (is_subscription_blocked (end_trial db).1).0 ≡ ok true)
  unfolding trial_row access_row revoked_row
  grants_unblock days = (
    λ a.
        rw (trial-writes (suc days) a)
          (passes db _ _ (write-current (trial_row (suc days))) (ground arith)),
    λ a. rw (access-writes a) (passes db _ _ (write-current access_row) (ground arith)),
    λ a. rw (revoke-writes a) (stops db _ _ (write-current revoked_row) (ground arith)),
    λ a. rw (end-writes a) (stops db _ _ (write-current expire) (ground arith)),
  )

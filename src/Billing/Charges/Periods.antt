-- ===== src/Billing/Charges/Periods.antt =====
-- One charge for one period.
use estoque_saas.Base.{
  ℕ, ◌+◌, ◌*◌, Bool, true, false, ◌&&◌, ◌≡◌, refl, Option, none, some, List, [], ◌∷◌, arith,
  Bool-cases, Option-cases, inl, inr, any, is_some, opt_text_eq,
}
use estoque_saas.Shared.Dates.{day_ms, add_months, add_months-later}
use estoque_saas.Shared.Transaction.{
  Action, ok, ◌>>=◌, pure, gets, modify, or_fail, continue, with_tenant, settle, with_tenant_ok,
}
use estoque_saas.Billing.Rows.{
  BillingDb, Invoice, invoice_created, Subscription, Plan, current_subscription, find_plan,
}
use estoque_saas.Billing.Webhook.{audit, create_invoice}
use estoque_saas.Billing.Subscriptions.{update_subscription, after_now}
use estoque_saas.Billing.Current.{update-current}
use estoque_saas.Billing.Charges.{
  document, usable, due_invoice, ChargeProvider, is_due, charge_period, charge_if_due,
  charge_current, generate_charge_for_tenant,
}

-- The newest subscription's period runs.
abbrev Running : BillingDb → Type 0
Running db =
    (s : Subscription) × (ss : List Subscription) × (db.subscriptions ≡ s ∷ ss)
    × (after_now s.current_period_end db.now ≡ true)

Running-skips :
    (provider : ChargeProvider) (db : BillingDb)
    → Running db
    → generate_charge_for_tenant provider db ≡ (ok false, db)
unfolding generate_charge_for_tenant charge_current charge_if_due is_due with_tenant settle ◌>>=◌
    continue gets pure
Running-skips provider db (s, ss, e, running) =
    let idle : is_due provider s db.now ≡ false = ground arith in rw e (rw idle refl)

-- The writes of a charge, once its invoice is there.
abbrev charge_end : Subscription → ℕ → ℕ → Action BillingDb Bool
charge_end s now invoice =
    update_subscription s.id (λ x. record x {
      current_period_start = some now;
      current_period_end = some (add_months 1 now);
    })
    >>= λ _. audit invoice_created invoice >>= λ _. pure true

charge_end-Running :
    (s : Subscription) (ss : List Subscription) (db : BillingDb) (invoice : ℕ)
    → db.subscriptions ≡ s ∷ ss
    → Running (charge_end s db.now invoice db).1
unfolding ◌>>=◌ continue modify pure
charge_end-Running s ss db invoice e =
    let row = λ (x : Subscription). record x {
      current_period_start = some db.now;
      current_period_end = some (add_months 1 db.now);
    } in
    let later = add_months-later 0 db.now in
    rw (update-current row s ss db e) (row s, _, refl, ground arith)

created-Running :
    (i : Invoice) (s : Subscription) (ss : List Subscription) (db : BillingDb) (b : Bool)
    → db.subscriptions ≡ s ∷ ss
    → ((create_invoice i >>= charge_end s db.now) db).0 ≡ ok b
    → Running ((create_invoice i >>= charge_end s db.now) db).1
unfolding ◌>>=◌ continue
created-Running i s ss db b e =
    elim (Bool-cases (
      any (λ x. is_some i.gateway_event_id && opt_text_eq x.gateway_event_id i.gateway_event_id)
        db.invoices)) [
          | inl taken ↦ rw taken (λ h. cc)
          | inr free ↦ rw free (λ h. charge_end-Running s ss _ db.next_id e)
        ]

charge_period-Running :
    (provider : ChargeProvider) (plan : Plan) (db : BillingDb) (s : Subscription)
    (ss : List Subscription) (b : Bool)
    → db.subscriptions ≡ s ∷ ss
    → (charge_period provider s plan db).0 ≡ ok b
    → Running (charge_period provider s plan db).1
unfolding charge_period ◌>>=◌ continue gets or_fail
charge_period-Running provider plan db s ss b e = elim (Option-cases (document db.tenant)) [
  | inl none_of ↦ rw none_of (λ h. cc)
  | inr (tax_id, found) ↦
      rw found
        (elim (Option-cases
          (usable (provider.charge plan.price_cents (db.now + 5 * day_ms) db.tenant tax_id))) [
            | inl unusable ↦ rw unusable (λ h. cc)
            | inr (c, used) ↦ rw used (created-Running (due_invoice s plan c db.now) s ss db b e)
          ])
]

charge_if_due-Running :
    (provider : ChargeProvider) (p : Option Plan) (db : BillingDb) (s : Subscription)
    (ss : List Subscription) (due : Bool)
    → db.subscriptions ≡ s ∷ ss
    → (charge_if_due provider s p due db).0 ≡ ok true
    → Running (charge_if_due provider s p due db).1
unfolding charge_if_due pure
charge_if_due-Running provider p db s ss false e h = ground arith
charge_if_due-Running provider none db s ss true e h = ground arith
charge_if_due-Running provider (some plan) db s ss true e h =
    charge_period-Running provider plan db s ss true e h

charge_current-Running :
    (provider : ChargeProvider) (db : BillingDb) (l : List Subscription)
    → db.subscriptions ≡ l
    → (charge_current provider (current_subscription db) db).0 ≡ ok true
    → Running (charge_current provider (current_subscription db) db).1
unfolding charge_current ◌>>=◌ continue gets pure
charge_current-Running provider db [] e =
    let current : current_subscription db ≡ none = rw e refl in rw current (λ h. ground arith)
charge_current-Running provider db (s ∷ ss) e =
    let current : current_subscription db ≡ some s = rw e refl in
    rw current
      (charge_if_due-Running provider (find_plan s.plan_id db) db s ss (is_due provider s db.now) e)

generated-Running :
    (provider : ChargeProvider) (db : BillingDb)
    → (generate_charge_for_tenant provider db).0 ≡ ok true
    → Running (generate_charge_for_tenant provider db).1
unfolding generate_charge_for_tenant ◌>>=◌ continue gets
generated-Running provider db h =
    let steps = λ (db : BillingDb). charge_current provider (current_subscription db) db in
    let (same, done) = with_tenant_ok steps db true h in
    rw same (charge_current-Running provider db db.subscriptions refl done)

-- A period is charged once: after a charge was issued, generating again at the same time, by the
-- monthly run or by a checkout and with any provider, issues none and changes no table.
pub generate_charge_once :
    (provider other : ChargeProvider) (db : BillingDb)
    → (generate_charge_for_tenant provider db).0 ≡ ok true
    → generate_charge_for_tenant other (generate_charge_for_tenant provider db).1
      ≡ (ok false, (generate_charge_for_tenant provider db).1)
generate_charge_once provider other db h = Running-skips other _ (generated-Running provider db h)

-- ===== src/Billing/Webhook/Redelivery.antt =====
-- A gateway delivers an event more than once: what the second delivery does.
use estoque_saas.Base.{
  ℕ, false, ◌||◌, ◌≡◌, refl, ap, ◌∙◌, Option, none, some, List, [], ◌∷◌, opt_text_eq, find, any,
  update_where, ◌==◌, sym, arith, Bool-cases, inl, inr, Option-cases,
}
use estoque_saas.Shared.Transaction.{
  ok, ◌>>=◌, pure, fail, gets, modify, continue, with_tenant_ok, with_tenant_commits,
}
use estoque_saas.Billing.Rows.{BillingDb, Invoice, Plan}
use estoque_saas.Billing.Webhook.{
  Event, ignored, charge_created, charge_pix_updated, charge_paid, charge_failed,
  subscription_canceled, Match, Confirmation, CreatedCharge, update_invoices,
  resolve_invoice_amount,
}
use estoque_saas.Billing.Webhook.Created.{
  on_created, complete_invoice, record_invoice, fills_qr, fixes_amount, completed, new_amount,
  new_invoice, plan_of_subscription, charged_as,
}
use estoque_saas.Billing.Webhook.Handling.{handle, apply_event}
use estoque_saas.Billing.Webhook.Guards.{
  text_eq_refl, Settled, on_failed-again, on_canceled-again, on_pix_updated-again, on_paid-again,
}

-- The invoice of a charge, after the row was completed.
completed-found :
    (c : CreatedCharge) (x : Invoice) (l : List Invoice)
    → find (charged_as c.charge_id) l ≡ some x
    → find (charged_as c.charge_id) (update_where (λ i. i.id == x.id) (completed c x) l)
      ≡ some (completed c x x)
completed-found c x [] h = cc
completed-found c x (y ∷ ys) h =
    let rest = completed-found c x ys in
    elim (Bool-cases (y.id == x.id)) [ inl e ↦ rw e (ground arith) | inr e ↦ rw e (ground arith) ]

-- The invoice of a charge is there and needs nothing more.
abbrev Complete : CreatedCharge → BillingDb → Type 0
Complete c db =
    (x : Invoice) × (find (charged_as c.charge_id) db.invoices ≡ some x)
    × ((fills_qr c x || fixes_amount c x) ≡ false)

complete_invoice-Complete :
    (c : CreatedCharge) (x : Invoice) (db : BillingDb)
    → find (charged_as c.charge_id) db.invoices ≡ some x
    → Complete c (complete_invoice c x db).1
unfolding complete_invoice ◌>>=◌ continue update_invoices pure
complete_invoice-Complete c x db e = elim (Bool-cases (fills_qr c x || fixes_amount c x)) [
  | inl needs ↦ rw needs (completed c x x, completed-found c x db.invoices e, ground arith)
  | inr idle ↦ rw idle (x, e, idle)
]

some_invoice-Complete :
    (c : CreatedCharge) (s a : ℕ) (db : BillingDb) (m : Option Confirmation)
    → fixes_amount c (new_invoice c s a) ≡ false
    → (record_invoice c s (some a) db).0 ≡ ok m
    → Complete c (record_invoice c s (some a) db).1
unfolding record_invoice ◌>>=◌ continue pure modify
some_invoice-Complete c s a db m fits =
    elim (Bool-cases (any (λ x. opt_text_eq x.gateway_event_id (some c.event_id)) db.invoices)) [
      | inl taken ↦ rw taken (λ h. cc)
      | inr free ↦ rw free (λ h. (
        record (new_invoice c s a) { id = db.next_id },
        (let same = text_eq_refl c.charge_id in rw same refl),
        ground arith,
      ))
    ]

unplanned-Complete :
    (c : CreatedCharge) (s : ℕ) (o : Option ℕ) (db : BillingDb) (m : Option Confirmation)
    → o ≡ c.amount_cents
    → (record_invoice c s o db).0 ≡ ok m
    → Complete c (record_invoice c s o db).1
unfolding record_invoice fail
unplanned-Complete c s none db m e h = cc
unplanned-Complete c s (some a) db m e h = some_invoice-Complete c s a db m (ground arith) h

record_invoice-Complete :
    (c : CreatedCharge) (s : ℕ) (p : Option Plan) (db : BillingDb) (m : Option Confirmation)
    → (record_invoice c s (new_amount c p) db).0 ≡ ok m
    → Complete c (record_invoice c s (new_amount c p) db).1
record_invoice-Complete c s (some p) db m =
    some_invoice-Complete c s (resolve_invoice_amount c.amount_cents p.price_cents) db m
      (ground arith)
record_invoice-Complete c s none db m = unplanned-Complete c s c.amount_cents db m refl

on_created-known :
    (c : CreatedCharge) (s : ℕ) (db : BillingDb) (x : Invoice)
    → find (charged_as c.charge_id) db.invoices ≡ some x
    → on_created c s db ≡ complete_invoice c x db
unfolding on_created ◌>>=◌ continue gets
on_created-known c s db x e = rw e refl

on_created-new :
    (c : CreatedCharge) (s : ℕ) (db : BillingDb)
    → find (charged_as c.charge_id) db.invoices ≡ none
    → on_created c s db ≡ record_invoice c s (new_amount c (plan_of_subscription s db)) db
unfolding on_created ◌>>=◌ continue gets
on_created-new c s db e = rw e refl

Complete-Settled :
    (c : CreatedCharge) (s : ℕ) (db : BillingDb) → Complete c db → Settled (on_created c s) db
unfolding complete_invoice pure
Complete-Settled c s db (x, found, idle) = on_created-known c s db x found ∙ rw idle refl

on_created-again :
    (c : CreatedCharge) (s : ℕ) (db : BillingDb) (m : Option Confirmation)
    → (on_created c s db).0 ≡ ok m
    → Settled (on_created c s) (on_created c s db).1
on_created-again c s db m h = elim (Option-cases (find (charged_as c.charge_id) db.invoices)) [
  | inl e ↦
      let plan = plan_of_subscription s db in
      let same = on_created-new c s db e in
      rw same (
        Complete-Settled c s _
          (record_invoice-Complete c s plan db m (ap (λ r. r.0) (sym same) ∙ h)))
  | inr (x, e) ↦
      rw (on_created-known c s db x e) (Complete-Settled c s _ (complete_invoice-Complete c x db e))
]

handle-again :
    (event : Event) (i s : Option ℕ) (db : BillingDb) (c : Option Confirmation)
    → (handle event i s db).0 ≡ ok c
    → Settled (handle event i s) (handle event i s db).1
unfolding handle pure
handle-again (charge_created c) i (some s) db m h = on_created-again c s db m h
handle-again (charge_created c) i none db m h = refl
handle-again (charge_pix_updated e c qr url) (some i) s db m h = on_pix_updated-again i qr url db
handle-again (charge_pix_updated e c qr url) none s db m h = refl
handle-again (charge_paid e c at) (some i) s db m h = on_paid-again e i s at db m h
handle-again (charge_paid e c at) none s db m h = refl
handle-again (charge_failed e c) (some i) s db m h = on_failed-again i s db
handle-again (charge_failed e c) none s db m h = refl
handle-again (subscription_canceled e g) i (some s) db m h = on_canceled-again s db
handle-again (subscription_canceled e g) i none db m h = refl
handle-again (ignored e) i s db m h = refl

-- An event of any type that was applied is applied once: a second delivery of it, matched to the
-- same rows, succeeds, changes no table, sends no email and writes no audit row.
pub apply_event_once :
    (event : Event) (m : Match) (db : BillingDb) (c : Option Confirmation)
    → (apply_event event m db).0 ≡ ok c
    → apply_event event m (apply_event event m db).1 ≡ (ok none, (apply_event event m db).1)
unfolding apply_event
apply_event_once event m db c h =
    let steps = handle event m.invoice_id m.subscription_id in
    let (same, done) = with_tenant_ok steps db c h in
    rw same (
      with_tenant_commits steps _ none _
        (handle-again event m.invoice_id m.subscription_id db c done))

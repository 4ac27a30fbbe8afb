-- ===== src/Billing/Webhook/Guards.antt =====
-- The events that are guarded by an update: a second delivery changes nothing.
use estoque_saas.Base.{
  ℕ, zero, suc, Bool, true, false, not, ◌&&◌, ◌≡◌, refl, ap, ◌∙◌, Option, none, some, List, [], ◌∷◌,
  Text, truthy, text_eq, opt_text_eq, any, select, length, update_where, ◌==◌, if◌then◌else◌,
  text_eq_iff, sym, arith, Bool-cases, inl, inr,
}
use estoque_saas.Shared.Transaction.{Action, ok, crash, ◌>>=◌, pure, fail, gets, modify, continue}
use estoque_saas.Shared.Fixes.{Fixes, fixes}
use estoque_saas.Billing.Rows.{
  BillingDb, Invoice, Subscription, failed, is_failed, is_canceled, is_open, canceled, paid,
}
use estoque_saas.Billing.Webhook.{
  Confirmation, on_pix_updated, on_paid, on_failed, on_canceled, after_paid, after_failed,
  after_canceled, update_invoices, update_subscriptions, unpaid_by, set_status, taken_event,
}

pub text_eq_refl : (t : Text) → text_eq t t ≡ true
text_eq_refl t = (text_eq_iff t t).1 refl

module _ {A : Type 0} (p : A → Bool) (f : A → A) (done : (x : A) → p (f x) ≡ false) where
  -- Rows that were changed do not pass the guard again.
  updated-none : (l : List A) → select p (update_where p f l) ≡ []
  updated-none [] = refl
  updated-none (x ∷ xs) = elim (Bool-cases (p x)) [
    | inl e ↦ rw e (rw (done x) (updated-none xs))
    | inr e ↦ rw e (rw e (updated-none xs))
  ]

  updated-same : (l : List A) → update_where p f (update_where p f l) ≡ update_where p f l
  updated-same [] = refl
  updated-same (x ∷ xs) = elim (Bool-cases (p x)) [
    | inl e ↦ rw e (rw (done x) (ap (λ z. f x ∷ z) (updated-same xs)))
    | inr e ↦ rw e (rw e (ap (λ z. x ∷ z) (updated-same xs)))
  ]

-- The state after which an action does nothing.
abbrev pub Settled : Action BillingDb (Option Confirmation) → BillingDb → Type 0
Settled m db = m db ≡ (ok none, db)

-- A table of the state.
record Table (A : Type 0) : Type 0 where
  get : BillingDb → List A
  put : List A → BillingDb → BillingDb
  get-put : (l : List A) (db : BillingDb) → get (put l db) ≡ l
  put-get : (db : BillingDb) → put (get db) db ≡ db

abbrev invoices_table : Table Invoice
invoices_table = record {
  get = λ db. db.invoices;
  put = λ l db. record db { invoices = l };
  get-put = λ l db. refl;
  put-get = λ db. refl;
}

abbrev subscriptions_table : Table Subscription
subscriptions_table = record {
  get = λ db. db.subscriptions;
  put = λ l db. record db { subscriptions = l };
  get-put = λ l db. refl;
  put-get = λ db. refl;
}

-- An update whose guard fails on what it wrote, and what follows it, which keeps the table and does
-- nothing when no row changed.
module _ {A : Type 0} (t : Table A) (p : A → Bool) (f : A → A)
    (done : (x : A) → p (f x) ≡ false) where
  abbrev guarded :
      (ℕ → Action BillingDb (Option Confirmation)) → Action BillingDb (Option Confirmation)
  guarded k db = k (length (select p (t.get db))) (t.put (update_where p f (t.get db)) db)

  guarded-again :
      (k : ℕ → Action BillingDb (Option Confirmation))
      → ((n : ℕ) → Fixes t.get (k n))
      → ((db : BillingDb) → Settled (k 0) db)
      → (db : BillingDb) → Settled (guarded k) (guarded k db).1
  guarded-again k keeps nothing db =
      let updated = update_where p f (t.get db) in
      let after = (guarded k db).1 in
      let kept =
        (keeps (length (select p (t.get db)))).at_state (t.put updated db) ∙ t.get-put updated db in
      let none_left =
        ap (λ l. length (select p l)) kept ∙ ap length (updated-none p f done (t.get db)) in
      let same = ap (update_where p f) kept ∙ updated-same p f done (t.get db) ∙ sym kept in
      ap (λ n. k n (t.put (update_where p f (t.get after)) after)) none_left
      ∙ ap (λ l. k 0 (t.put l after)) same
      ∙ ap (k 0) (t.put-get after)
      ∙ nothing after

after_failed-Fixes : (i : ℕ) (s : Option ℕ) (n : ℕ) → Fixes (λ db. db.invoices) (after_failed i s n)
unfolding after_failed pure ◌>>=◌ update_subscriptions modify continue
after_failed-Fixes i s zero = fixes _ _ λ db. refl
after_failed-Fixes i none (suc n) = fixes _ _ λ db. refl
after_failed-Fixes i (some s) (suc n) = fixes _ _ λ db. refl

pub on_failed-again :
    (i : ℕ) (s : Option ℕ) (db : BillingDb) → Settled (on_failed i s) (on_failed i s db).1
unfolding on_failed ◌>>=◌ continue update_invoices after_failed pure
on_failed-again i s db =
    guarded-again invoices_table (λ x. (x.id == i) && not (is_failed x.status))
      (λ x. record x { status = failed }) (λ x. ground arith) (after_failed i s)
      (after_failed-Fixes i s) (λ db. refl) db

after_canceled-Fixes : (s n : ℕ) → Fixes (λ db. db.subscriptions) (after_canceled s n)
unfolding after_canceled pure ◌>>=◌ modify continue
after_canceled-Fixes s zero = fixes _ _ λ db. refl
after_canceled-Fixes s (suc n) = fixes _ _ λ db. refl

pub on_canceled-again : (s : ℕ) (db : BillingDb) → Settled (on_canceled s) (on_canceled s db).1
unfolding on_canceled ◌>>=◌ continue update_subscriptions after_canceled pure
on_canceled-again s db =
    guarded-again subscriptions_table (λ x. (x.id == s) && not (is_canceled x.status))
      (set_status canceled) (λ x. ground arith) (after_canceled s) (after_canceled-Fixes s)
      (λ db. refl) db

pub on_pix_updated-again :
    (i : ℕ) (qr : Text) (url : Option Text) (db : BillingDb)
    → Settled (on_pix_updated i qr url) (on_pix_updated i qr url db).1
unfolding on_pix_updated ◌>>=◌ continue update_invoices pure
on_pix_updated-again i qr url db =
    guarded-again invoices_table
      (λ x. (x.id == i) && (is_open x.status && not (opt_text_eq x.pix_qr_code (some qr))))
      (λ x. record x {
        pix_qr_code = some qr;
        boleto_url = if truthy url then url else x.boleto_url;
      })
      (λ x. let same = text_eq_refl qr in ground arith) (λ _. pure none) (λ n. fixes _ _ λ db. refl)
      (λ db. refl) db

after_paid-Fixes : (i : ℕ) (s : Option ℕ) (n : ℕ) → Fixes (λ db. db.invoices) (after_paid i s n)
unfolding after_paid pure ◌>>=◌ update_subscriptions modify gets continue
after_paid-Fixes i s zero = fixes _ _ λ db. refl
after_paid-Fixes i none (suc n) = fixes _ _ λ db. refl
after_paid-Fixes i (some s) (suc n) = fixes _ _ λ db. refl

after_paid-none : (i : ℕ) (s : Option ℕ) (db : BillingDb) → Settled (after_paid i s 0) db
unfolding after_paid pure
after_paid-none i s db = refl

updated-any :
    {A : Type 0} (p : A → Bool) (f : A → A)
    → ((x : A) → p (f x) ≡ false)
    → (l : List A) → any p (update_where p f l) ≡ false
updated-any p f done [] = refl
updated-any p f done (x ∷ xs) =
    let rest = updated-any p f done xs in
    elim (Bool-cases (p x)) [ inl e ↦ rw e (rw (done x) rest) | inr e ↦ rw e (rw e rest) ]

abbrev paid_row : Text → ℕ → Invoice → Invoice
paid_row e at i = record i { status = paid; paid_at = some at; gateway_event_id = some e }

paid_row-done : (e : Text) (i at : ℕ) (x : Invoice) → unpaid_by e i (paid_row e at x) ≡ false
paid_row-done e i at x = let same = text_eq_refl e in ground arith

-- Paying, when no other invoice has the event.
abbrev paying : Text → ℕ → Option ℕ → ℕ → Action BillingDb (Option Confirmation)
paying e i s at =
    guarded invoices_table (unpaid_by e i) (paid_row e at) (paid_row-done e i at) (after_paid i s)

on_paid-paying :
    (e : Text) (i : ℕ) (s : Option ℕ) (at : ℕ) (db : BillingDb)
    → taken_event e (unpaid_by e i) db ≡ false
    → on_paid e i s at db ≡ paying e i s at db
unfolding on_paid ◌>>=◌ continue update_invoices gets pure fail
on_paid-paying e i s at db free = rw free refl

on_paid-taken :
    (e : Text) (i : ℕ) (s : Option ℕ) (at : ℕ) (db : BillingDb)
    → taken_event e (unpaid_by e i) db ≡ true
    → (on_paid e i s at db).0 ≡ crash
unfolding on_paid ◌>>=◌ continue update_invoices gets pure fail
on_paid-taken e i s at db taken = rw taken refl

paying-free :
    (e : Text) (i : ℕ) (s : Option ℕ) (at : ℕ) (db : BillingDb)
    → taken_event e (unpaid_by e i) (paying e i s at db).1 ≡ false
paying-free e i s at db =
    let written = unpaid_by e i in
    let updated = update_where written (paid_row e at) db.invoices in
    let kept =
      (after_paid-Fixes i s (length (select written db.invoices))).at_state
        (record db { invoices = updated }) in
    let none_left =
      ap (any written) kept
      ∙ updated-any written (paid_row e at) (paid_row-done e i at) db.invoices in
    rw none_left (ground arith)

pub on_paid-again :
    (e : Text) (i : ℕ) (s : Option ℕ) (at : ℕ) (db : BillingDb) (c : Option Confirmation)
    → (on_paid e i s at db).0 ≡ ok c
    → Settled (on_paid e i s at) (on_paid e i s at db).1
on_paid-again e i s at db c h = elim (Bool-cases (taken_event e (unpaid_by e i) db)) [
  | inl taken ↦ let crashed = on_paid-taken e i s at db taken in cc
  | inr free ↦ rw (on_paid-paying e i s at db free) (
      on_paid-paying e i s at (paying e i s at db).1 (paying-free e i s at db)
      ∙ guarded-again invoices_table (unpaid_by e i) (paid_row e at) (paid_row-done e i at)
          (after_paid i s) (after_paid-Fixes i s) (after_paid-none i s) db)
]

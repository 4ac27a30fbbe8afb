-- ===== src/Billing/Subscriptions/Unpaid.antt =====
-- The status in which a checkout leaves a subscription that was not paid.
use mathlib.Core.Path.{subst}
use estoque_saas.Base.{
  ℕ, ◌≡◌, ◌≢◌, refl, Bool, true, false, Option, none, some, [], ◌∷◌, arith, Bool-cases, inl, inr,
  Text, find, truthy, ◌==◌, Option-cases,
}
use estoque_saas.Shared.Errors.{ErrorCode, payment_required}
use estoque_saas.Shared.Transaction.{Action, Result, ok, err, crash, fail}
use estoque_saas.Shared.Returns.{
  Returns, pure-Returns, throw-Returns, fail-Returns, with_tenant-Returns, bind-Returns,
  then-Returns,
}
use estoque_saas.Billing.Rows.{
  BillingDb, Subscription, active, Plan, Tenant, PaymentMethod, card, pix_boleto, BillingAddress,
  tenant_billing_address,
}
use estoque_saas.Billing.Subscriptions.{
  create_subscription, sign_with, sign_by_card, sign_by_pix, replacing, sign_by_month,
  charge_by_pix, store_card, store_pix, status_until_paid, update_subscription,
}
use estoque_saas.Billing.Gateway.{
  Faults, Provider, Reply, charged, refused, RecurringResult, InitialCharge, is_charge_ok, was_paid,
  refusal, card_reply, pix_reply, or_cancel, undo,
}

abbrev Inactive : Subscription → Type 0
Inactive s = s.status ≢ active

-- A card reply that did not confirm a charge, and a Pix reply whose first invoice was not paid.
abbrev pub CardUnpaid : RecurringResult → Type 0
CardUnpaid r = is_charge_ok r.status ≡ false

abbrev pub PixUnpaid : RecurringResult → Type 0
PixUnpaid r = was_paid r.initial_charge_status ≡ false

-- No reply of the provider reports a payment.
pub record NeverPaid (provider : Provider) : Type 0 where
  pub by_card :
      (p : Plan) (t : Tenant) (email token : Text) (r : RecurringResult)
      → provider.charge_card p t email token ≡ charged r
      → CardUnpaid r
  pub by_pix :
      (f : Plan → Tenant → Text → BillingAddress → Reply)
      → provider.charge_pix ≡ some f
      → (p : Plan) (t : Tenant) (email : Text) (a : BillingAddress) (r : RecurringResult)
      → f p t email a ≡ charged r
      → PixUnpaid r

status_until_paid-inactive : (s : Subscription) (now : ℕ) → status_until_paid s now ≢ active
unfolding status_until_paid
status_until_paid-inactive s now = ground arith

update_subscription-Returns :
    (id : ℕ) (f : Subscription → Subscription)
    → ((s : Subscription) → Inactive (f s))
    → Returns Inactive (update_subscription id f)
unfolding update_subscription
update_subscription-Returns id f h = record {
  at_state = λ db s. elim (Option-cases (find (λ x. x.id == id) db.subscriptions)) [
    | inl n ↦ rw (n, update_subscription) (λ e. cc)
    | inr (x, found) ↦
        rw (found, update_subscription) (λ e. let same : f x ≡ s = cc in subst Inactive same (h x))
  ];
}

undo-ok :
    {A : Type 0} (faults : Faults) (id : Text) (r : Result A × BillingDb) (a : A)
    → (undo faults id r).0 ≡ ok a
    → r.0 ≡ ok a
unfolding undo
undo-ok faults id (ok b, db) a e = e
undo-ok faults id (err c, db) a e = cc
undo-ok faults id (crash, db) a e = cc

or_cancel-Returns :
    (faults : Faults) (id : Text) (m : Action BillingDb Subscription)
    → Returns Inactive m
    → Returns Inactive (or_cancel faults id m)
unfolding or_cancel
or_cancel-Returns faults id m h = record {
  at_state = λ s a e. h.at_state s a (undo-ok faults id (m s) a e);
}

module _ (P : RecurringResult → Type 0) where
  refused-Returns : (b : Bool) (code : Option ErrorCode) → Returns P (refusal b code)
  unfolding refusal fail
  refused-Returns true code = throw-Returns P payment_required
  refused-Returns false none = fail-Returns P
  refused-Returns false (some e) = throw-Returns P e

  card_reply-Returns :
      (vindi : Bool) (reply : Reply)
      → ((r : RecurringResult) → reply ≡ charged r → P r)
      → Returns P (card_reply vindi reply)
  unfolding card_reply
  card_reply-Returns vindi (charged r) h = pure-Returns P r (h r refl)
  card_reply-Returns vindi (refused status code) h = refused-Returns _ code

  pix_reply-Returns :
      (reply : Reply)
      → ((r : RecurringResult) → reply ≡ charged r → P r)
      → Returns P (pix_reply reply)
  unfolding pix_reply
  pix_reply-Returns (charged r) h = pure-Returns P r (h r refl)
  pix_reply-Returns (refused status code) h = refused-Returns _ code

store_card-Returns :
    (faults : Faults) (s : Subscription) (p : Plan) (r : RecurringResult)
    → CardUnpaid r
    → Returns Inactive (store_card faults s p r)
unfolding store_card
store_card-Returns faults s p r unpaid = with_tenant-Returns Inactive _ (
    then-Returns Inactive _ _ λ _. then-Returns Inactive _ _ λ now.
      bind-Returns Inactive Inactive _ _
        (update_subscription-Returns _ _
          λ x. let waits = status_until_paid-inactive s now in rw unpaid waits)
        λ updated h. then-Returns Inactive _ _ λ _. then-Returns Inactive _ _ λ _.
          then-Returns Inactive _ _ λ _.
            then-Returns Inactive _ _
              λ _. then-Returns Inactive _ _ λ _. pure-Returns Inactive updated h)

store_pix-Returns :
    (faults : Faults) (s : Subscription) (p : Plan) (r : RecurringResult) (c : InitialCharge)
    → PixUnpaid r
    → Returns Inactive (store_pix faults s p r c)
unfolding store_pix
store_pix-Returns faults s p r c unpaid = with_tenant-Returns Inactive _ (
    then-Returns Inactive _ _ λ _. then-Returns Inactive _ _ λ now.
      bind-Returns Inactive Inactive _ _
        (update_subscription-Returns _ _
          λ x. let waits = status_until_paid-inactive s now in rw unpaid waits)
        λ updated h. then-Returns Inactive _ _ λ _. then-Returns Inactive _ _ λ _.
          then-Returns Inactive _ _ λ _.
            then-Returns Inactive _ _
              λ _. then-Returns Inactive _ _ λ _. pure-Returns Inactive updated h)

sign_by_card-Returns :
    (faults : Faults) (vindi : Bool) (p : Plan) (reply : Reply)
    → ((r : RecurringResult) → reply ≡ charged r → CardUnpaid r)
    → Returns Inactive (sign_by_card faults vindi p reply)
unfolding sign_by_card
sign_by_card-Returns faults vindi p reply h = then-Returns Inactive _ _ λ _.
    then-Returns Inactive _ _ λ s.
      bind-Returns CardUnpaid Inactive _ _ (card_reply-Returns CardUnpaid vindi reply h) λ r unpaid.
        then-Returns Inactive _ _
          λ _. or_cancel-Returns faults _ _ (store_card-Returns faults s p r unpaid)

charge_by_pix-Returns :
    (faults : Faults) (s : Subscription) (p : Plan) (reply : Reply)
    → ((r : RecurringResult) → reply ≡ charged r → PixUnpaid r)
    → Returns Inactive (charge_by_pix faults s p reply)
unfolding charge_by_pix
charge_by_pix-Returns faults s p reply h =
    bind-Returns PixUnpaid Inactive _ _ (pix_reply-Returns PixUnpaid reply h) λ r unpaid.
      then-Returns Inactive _ _
        λ c. or_cancel-Returns faults _ _ (store_pix-Returns faults s p r c unpaid)

replacing-Returns :
    (faults : Faults) (s : Subscription) (p : Plan) (reply : Reply) (replaced : Option Text)
    (qr : Bool)
    → ((r : RecurringResult) → reply ≡ charged r → PixUnpaid r)
    → (truthy replaced ≡ true → Inactive s)
    → Returns Inactive (replacing faults s p reply qr replaced)
unfolding replacing
replacing-Returns faults s p reply none qr h w = charge_by_pix-Returns faults s p reply h
replacing-Returns faults s p reply (some []) qr h w = charge_by_pix-Returns faults s p reply h
replacing-Returns faults s p reply (some (x ∷ xs)) true h w = pure-Returns Inactive s (w refl)
replacing-Returns faults s p reply (some (x ∷ xs)) false h w =
    then-Returns Inactive _ _ λ _. charge_by_pix-Returns faults s p reply h

sign_by_pix-Returns :
    (faults : Faults) (p : Plan) (reply : Reply)
    → ((r : RecurringResult) → reply ≡ charged r → PixUnpaid r)
    → Returns Inactive (sign_by_pix faults p reply)
unfolding sign_by_pix
sign_by_pix-Returns faults p reply h = then-Returns Inactive _ _ λ _.
    then-Returns Inactive _ _
      λ s. then-Returns Inactive _ _ λ i. replacing-Returns faults s p reply _ _ h (ground arith)

sign_by_month-Returns : (p : Plan) → Returns Inactive (sign_by_month p)
unfolding sign_by_month
sign_by_month-Returns p = with_tenant-Returns Inactive _ (
    then-Returns Inactive _ _ λ _. then-Returns Inactive _ _ λ s. then-Returns Inactive _ _ λ now.
      bind-Returns Inactive Inactive _ _
        (update_subscription-Returns _ _ λ x. status_until_paid-inactive s now)
        λ updated h. then-Returns Inactive _ _ λ _. pure-Returns Inactive updated h)

sign_with-Returns :
    (faults : Faults) (provider : Provider) (p : Plan) (t : Tenant) (email : Text)
    (method : PaymentMethod) (token : Option Text)
    → NeverPaid provider
    → Returns Inactive (sign_with faults provider p t email method token)
unfolding sign_with
sign_with-Returns faults provider p t email card none h = throw-Returns Inactive _
sign_with-Returns faults provider p t email card (some []) h = throw-Returns Inactive _
sign_with-Returns faults provider p t email card (some (x ∷ xs)) h =
    sign_by_card-Returns faults provider.is_vindi p _ (h.by_card p t email (x ∷ xs))
sign_with-Returns faults provider p t email pix_boleto token h =
    elim (Option-cases provider.charge_pix) [
      | inl n ↦ rw n (sign_by_month-Returns p)
      | inr (f, e) ↦ rw e (elim (Bool-cases (truthy p.gateway_plan_id)) [
        | inr missing ↦ rw missing (throw-Returns Inactive _)
        | inl there ↦ rw there (elim (Option-cases (tenant_billing_address t.address)) [
          | inl n ↦ rw n (throw-Returns Inactive _)
          | inr (a, address) ↦
              rw address (sign_by_pix-Returns faults p _ (h.by_pix f e p t email a))
        ])
      ])
    ]

created-Returns :
    (faults : Faults) (provider : Provider) (plan : ℕ) (method : PaymentMethod)
    (token : Option Text)
    → NeverPaid provider
    → Returns Inactive (create_subscription faults provider plan method token)
unfolding create_subscription
created-Returns faults provider plan method token h = then-Returns Inactive _ _ λ _.
    then-Returns Inactive _ _ λ email. then-Returns Inactive _ _ λ t.
      then-Returns Inactive _ _ λ _.
        then-Returns Inactive _ _ λ p. sign_with-Returns faults provider p t email method token h

-- Without a payment that the gateway confirms, a checkout that succeeds, by card, by Pix with or
-- without a recurrence, and whether or not it replaces an earlier one, leaves the subscription it
-- answers in another status than active.
pub create_subscription_unpaid :
    (faults : Faults) (provider : Provider) (plan : ℕ) (method : PaymentMethod)
    (token : Option Text)
    → NeverPaid provider
    → (db : BillingDb) (s : Subscription)
    → (create_subscription faults provider plan method token db).0 ≡ ok s
    → s.status ≢ active
create_subscription_unpaid faults provider plan method token h =
    (created-Returns faults provider plan method token h).at_state

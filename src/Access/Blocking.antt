-- ===== src/Access/Blocking.antt =====
-- When the code keeps a tenant out.
use estoque_saas.Base.{
  ℕ, Bool, true, false, not, ◌&&◌, ◌≡◌, refl, sym, ap, ◌∙◌, ◌↔◌, ◌⊎◌, inl, inr, none, some, List,
  [], ◌∷◌, arith, Option, Bool-cases, Option-cases, is_some, update_where, ◌==◌, truthy, Text,
}
use estoque_saas.Shared.Rbac.{Role, Permission, can}
use estoque_saas.Shared.Errors.{payment_required, forbidden}
use estoque_saas.Shared.Transaction.{
  Result, ok, err, crash, ◌>>=◌, pure, gets, with_tenant, settle, continue, or_throw, throw_if,
}
use estoque_saas.Billing.Rows.{
  BillingDb, Subscription, trialing, pending_payment, current_subscription, is_trialing,
}
use estoque_saas.Billing.Subscriptions.{after_now}
use estoque_saas.Billing.Current.{update-current}
use estoque_saas.Access.{
  is_subscription_blocked, blocked_by, is_blocked_status, require_session, require_role,
  SessionContext, SessionUser,
}

-- The condition under which the code blocks.
abbrev pub Unpaid : Subscription → ℕ → Type 0
Unpaid s now =
    (s.status ≡ pending_payment) ⊎ ((s.status ≡ trialing) × (after_now s.trial_ends_at now ≡ false))

abbrev pub expire : Subscription → Subscription
expire s = record s { status = pending_payment; trial_ends_at = none }

module _ (db : BillingDb) (s : Subscription) (ss : List Subscription)
    (e : db.subscriptions ≡ s ∷ ss) where
  abbrev expired_db : BillingDb
  expired_db = record db { subscriptions = expire s ∷ update_where (λ x. x.id == s.id) expire ss }

  running-blocked :
      s.status ≡ trialing
      → after_now s.trial_ends_at db.now ≡ true
      → is_subscription_blocked db ≡ (ok false, db)
  unfolding is_subscription_blocked blocked_by with_tenant settle ◌>>=◌ continue gets pure
  running-blocked t a = rw e (
      rw t (elim (Option-cases s.trial_ends_at) [
        | inl x ↦ ground arith
        | inr (end, x) ↦ rw x (ground arith)
      ]))

  expired-step :
      s.status ≡ trialing
      → (end : ℕ) → s.trial_ends_at ≡ some end
      → after_now s.trial_ends_at db.now ≡ false
      → blocked_by (some s) db.now db ≡ (ok true, expired_db)
  unfolding blocked_by ◌>>=◌ continue pure
  expired-step t end x a =
      let on_trial : (is_trialing s.status && is_some s.trial_ends_at) ≡ true = ground arith in
      rw on_trial (rw a (ap (continue (λ _. pure true)) (update-current expire s ss db e)))

  expired-blocked :
      s.status ≡ trialing
      → (end : ℕ) → s.trial_ends_at ≡ some end
      → after_now s.trial_ends_at db.now ≡ false
      → is_subscription_blocked db ≡ (ok true, expired_db)
  unfolding is_subscription_blocked with_tenant settle ◌>>=◌ continue gets pure
  expired-blocked t end x a =
      let current : current_subscription db ≡ some s = rw e refl in
      ap (λ o. settle db (blocked_by o db.now db)) current ∙ ap (settle db) (expired-step t end x a)

  other-blocked :
      (is_trialing s.status && is_some s.trial_ends_at) ≡ false
      → is_subscription_blocked db ≡ (ok (is_blocked_status s.status), db)
  unfolding is_subscription_blocked blocked_by with_tenant settle ◌>>=◌ continue gets pure
  other-blocked x = rw e (rw x refl)

-- A tenant with a subscription is blocked exactly while the subscription waits for a payment, or is on
-- a trial without an end or with an end that has passed; the answer is never an error.
pub is_subscription_blocked_iff :
    (db : BillingDb) (s : Subscription) (ss : List Subscription)
    → db.subscriptions ≡ s ∷ ss
    → (((is_subscription_blocked db).0 ≡ ok true) ↔ Unpaid s db.now)
      × (((is_subscription_blocked db).0 ≡ ok true) ⊎ ((is_subscription_blocked db).0 ≡ ok false))
unfolding is_blocked_status
is_subscription_blocked_iff db s ss e =
    elim (Bool-cases (is_trialing s.status && is_some s.trial_ends_at)) [
      | inr n ↦ let answer = ap (λ r. r.0) (other-blocked db s ss e n) in ground arith
      | inl y ↦ elim (Bool-cases (after_now s.trial_ends_at db.now)) [
        | inl a ↦
            let answer = ap (λ r. r.0) (running-blocked db s ss e (ground arith) a) in ground arith
        | inr a ↦ elim (Option-cases s.trial_ends_at) [
          | inl n ↦ ground arith
          | inr (end, x) ↦
              let answer = ap (λ r. r.0) (expired-blocked db s ss e (ground arith) end x a) in
              ground arith
        ]
      ]
    ]

settled-again :
    (db : BillingDb) (s : Subscription) (ss : List Subscription)
    → db.subscriptions ≡ s ∷ ss
    → is_subscription_blocked (is_subscription_blocked db).1 ≡ is_subscription_blocked db
unfolding is_blocked_status
settled-again db s ss e = elim (Bool-cases (is_trialing s.status && is_some s.trial_ends_at)) [
  | inr n ↦ let answer = other-blocked db s ss e n in rw answer answer
  | inl y ↦ elim (Bool-cases (after_now s.trial_ends_at db.now)) [
    | inl a ↦ let answer = running-blocked db s ss e (ground arith) a in rw answer answer
    | inr a ↦ elim (Option-cases s.trial_ends_at) [
      | inl n ↦ ground arith
      | inr (end, x) ↦
          let answer = expired-blocked db s ss e (ground arith) end x a in
          rw answer (other-blocked (expired_db db s ss e) (expire s) _ refl refl)
    ]
  ]
]

none-blocked :
    (db : BillingDb) → db.subscriptions ≡ [] → is_subscription_blocked db ≡ (ok false, db)
unfolding is_subscription_blocked blocked_by with_tenant settle ◌>>=◌ continue gets pure
none-blocked db e = rw e refl

any-again :
    (db : BillingDb) (l : List Subscription)
    → db.subscriptions ≡ l
    → is_subscription_blocked (is_subscription_blocked db).1 ≡ is_subscription_blocked db
any-again db [] e = let answer = none-blocked db e in rw answer answer
any-again db (s ∷ ss) e = settled-again db s ss e

-- Asking whether a tenant is blocked again at the same time answers the same and changes nothing more:
-- a trial that has run out is ended once.
pub is_subscription_blocked_again :
    (db : BillingDb)
    → is_subscription_blocked (is_subscription_blocked db).1 ≡ is_subscription_blocked db
is_subscription_blocked_again db = any-again db db.subscriptions refl

-- What a route's guard does with the answer.
abbrev answered :
    Permission → SessionContext → Result Bool × BillingDb → Result SessionContext × BillingDb
answered p ctx r =
    continue (λ ctx. throw_if (not (can ctx.role p)) forbidden >>= λ _. pure ctx)
      (continue (λ blocked. throw_if blocked payment_required >>= λ _. pure ctx) r)

answered_iff :
    (p : Permission) (own ctx : SessionContext) (r : Result Bool × BillingDb)
    → ((answered p own r).0 ≡ ok ctx) ↔ ((own ≡ ctx) × (can own.role p ≡ true) × (r.0 ≡ ok false))
unfolding ◌>>=◌ continue throw_if pure
answered_iff p own ctx (ok true, db) = ground arith
answered_iff p own ctx (ok false, db) = elim (Bool-cases (can own.role p)) [
  | inl c ↦ rw c (ground arith)
  | inr c ↦ rw c (ground arith)
]
answered_iff p own ctx (err e, db) = ground arith
answered_iff p own ctx (crash, db) = ground arith

-- The session that names this context.
abbrev pub session_of : SessionContext → SessionUser
session_of ctx = record {
  id = some ctx.user_id;
  tenant_id = some ctx.tenant_id;
  role = some ctx.role;
}

-- The session names a user, a tenant and a role, the role has the permission, and the tenant is not
-- blocked or is allowed to be.
abbrev pub Admits : Permission → Option SessionUser → Bool → BillingDb → SessionContext → Type 0
Admits p session allow db ctx =
    (session ≡ some (session_of ctx))
    × (truthy (some ctx.user_id) ≡ true)
    × (truthy (some ctx.tenant_id) ≡ true)
    × (can ctx.role p ≡ true)
    × ((allow ≡ true) ⊎ ((is_subscription_blocked db).0 ≡ ok false))

module _ (p : Permission) (db : BillingDb) (ctx : SessionContext) where
  full_session :
      (x y : ℕ) (xs ys : Text) (role : Role) (allow : Bool)
      → let own : SessionContext = record { tenant_id = y ∷ ys; user_id = x ∷ xs; role = role } in
        ((require_role p (some (session_of own)) allow db).0 ≡ ok ctx) ↔ (
          (own ≡ ctx)
          × (can role p ≡ true)
          × ((allow ≡ true) ⊎ ((is_subscription_blocked db).0 ≡ ok false)))
  unfolding require_role require_session ◌>>=◌ continue or_throw throw_if pure
  full_session x y xs ys role true = elim (Bool-cases (can role p)) [
    | inl c ↦ rw c (ground arith)
    | inr c ↦ rw c (ground arith)
  ]
  full_session x y xs ys role false =
      let own : SessionContext = record { tenant_id = y ∷ ys; user_id = x ∷ xs; role = role } in
      let (to, from) = answered_iff p own ctx (is_subscription_blocked db) in
      (
        λ h. let (a, b, c) = to h in (a, b, inr c),
        λ h. elim h.2 [ inl f ↦ cc | inr c ↦ from (h.0, h.1, c) ],
      )

  named_session :
      (x y : ℕ) (xs ys : Text) (role : Role) (allow : Bool)
      → let own : SessionContext = record { tenant_id = y ∷ ys; user_id = x ∷ xs; role = role } in
        ((require_role p (some (session_of own)) allow db).0 ≡ ok ctx)
        ↔ Admits p (some (session_of own)) allow db ctx
  named_session x y xs ys role allow =
      let own : SessionContext = record { tenant_id = y ∷ ys; user_id = x ∷ xs; role = role } in
      let (to, from) = full_session x y xs ys role allow in
      (
        λ h.
            let (same, able, entry) = to h in
            (
              ap (λ c. some (session_of c)) same,
              ap (λ (c : SessionContext). truthy (some c.user_id)) (sym same),
              ap (λ (c : SessionContext). truthy (some c.tenant_id)) (sym same),
              ap (λ (c : SessionContext). can c.role p) (sym same) ∙ able,
              entry,
            ),
        λ (e, u, t, able, entry).
            let same : own ≡ ctx = cc e in
            from (same, ap (λ (c : SessionContext). can c.role p) same ∙ able, entry),
      )

  any_session :
      (id tenant : Option Text) (role : Option Role) (allow : Bool)
      → let session : Option SessionUser =
          some (record { id = id; tenant_id = tenant; role = role }) in
        ((require_role p session allow db).0 ≡ ok ctx) ↔ Admits p session allow db ctx
  unfolding require_role require_session ◌>>=◌ continue or_throw throw_if pure
  any_session none tenant role allow = (λ h. cc, λ h. cc (h.0))
  any_session (some []) tenant role allow = (λ h. cc, λ h. cc (h.0, h.1))
  any_session (some (x ∷ xs)) none role allow = (λ h. cc, λ h. cc (h.0))
  any_session (some (x ∷ xs)) (some []) role allow = (λ h. cc, λ h. cc (h.0, h.2))
  any_session (some (x ∷ xs)) (some (y ∷ ys)) none allow = (λ h. cc, λ h. cc (h.0))
  any_session (some (x ∷ xs)) (some (y ∷ ys)) (some role) allow = named_session x y xs ys role allow

-- A request passes the guard of a route and gets a context exactly when its session names that
-- context's user, tenant and role, none of them empty, the role has the permission, and the tenant is
-- not blocked or the route allows it to be; with any other session no context is given.
pub require_role_iff :
    (p : Permission) (session : Option SessionUser) (allow : Bool) (db : BillingDb)
    (ctx : SessionContext)
    → ((require_role p session allow db).0 ≡ ok ctx) ↔ Admits p session allow db ctx
unfolding require_role require_session ◌>>=◌ continue or_throw
require_role_iff p none allow db ctx = (λ h. cc, λ h. cc (h.0))
require_role_iff p (some u) allow db ctx = any_session p db ctx u.id u.tenant_id u.role allow

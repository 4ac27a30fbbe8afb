-- ===== src/Access/ManagerPin/Unlocking.antt =====
-- Who is let in by the PIN, and for how long.
use estoque_saas.Base.{
  ℕ, ◌+◌, ◌<◌, ◌≡◌, ◌≢◌, ◌↔◌, ◌⊎◌, inl, inr, refl, ap, ◌∙◌, Bool, true, false, not, ◌&&◌, ◌||◌,
  Option, none, some, List, [], ◌∷◌, Text, text_eq, text_eq_iff, arith, find, update_where, is_some,
  Bool-cases, Option-cases, if◌then◌else◌,
}
use estoque_saas.Shared.Errors.{forbidden}
use estoque_saas.Shared.Transaction.{
  Result, ok, err, ◌>>=◌, pure, gets, modify, or_fail, throw_if, with_tenant, continue, settle,
  bind_ok,
}
use estoque_saas.Access.{SessionContext}
use estoque_saas.Access.Tokens.{Payload, Signing, make_token}
use estoque_saas.Access.Tokens.Reading.{read_token-make_token}
use estoque_saas.Access.ManagerPin.{
  Office, TenantPin, Hashing, is_pin, with_hash, find_tenant, matches, set_manager_pin,
  verify_manager_pin, check_pin, unlock_with_manager_pin, get_manager_unlock_expiry,
  has_financial_access, unexpired, role_has_financial_access, unlock_ttl_ms,
}

find-update_where :
    (id : Text) (hash : Option Text) (ts : List TenantPin) (t : TenantPin)
    → find (λ t. text_eq t.id id) ts ≡ some t
    → find (λ t. text_eq t.id id) (update_where (λ t. text_eq t.id id) (with_hash hash) ts)
      ≡ some (with_hash hash t)
find-update_where id hash [] t e = cc
find-update_where id hash (x ∷ xs) t e = ground (arith, find-update_where id hash xs t)

module _ (h : Hashing) where
  -- Checking a PIN changes nothing.
  verify_lem :
      (tenant pin : Text) (db : Office) (t : TenantPin)
      → find_tenant tenant db ≡ some t
      → verify_manager_pin h tenant pin db ≡ (ok (matches h pin t.manager_pin_hash), db)
  unfolding verify_manager_pin ◌>>=◌ with_tenant continue settle gets or_fail pure
  verify_lem tenant pin db t e = rw e refl

  check_lem :
      (tenant pin : Text) (db : Office) (t : TenantPin)
      → find_tenant tenant db ≡ some t
      → check_pin h tenant pin db ≡ (ok (is_pin pin && matches h pin t.manager_pin_hash), db)
  unfolding check_pin pure
  check_lem tenant pin db t e = elim (Bool-cases (is_pin pin)) [
    | inl v ↦ rw (v, check_pin) (verify_lem tenant pin db t e)
    | inr v ↦ rw (v, check_pin) refl
  ]

  -- Unlocking where the tenant's hash is known.
  unlock_lem :
      (s : Signing) (ctx : SessionContext) (pin : Text) (now : ℕ) (db : Office) (t : TenantPin)
      → find_tenant ctx.tenant_id db ≡ some t
      → ((is_pin pin && matches h pin t.manager_pin_hash) ≡ true
          → (unlock_with_manager_pin h s ctx pin now db).0 ≡ ok (now + unlock_ttl_ms))
        × ((is_pin pin && matches h pin t.manager_pin_hash) ≡ false
            → unlock_with_manager_pin h s ctx pin now db ≡ (err forbidden, db))
  unfolding unlock_with_manager_pin ◌>>=◌ continue throw_if modify pure
  unlock_lem s ctx pin now db t e =
      let checked = check_lem ctx.tenant_id pin db t e in
      (λ v. rw (checked, v) refl, λ v. rw (checked, v) refl)

  -- What setting a PIN leaves behind.
  set_lem :
      (tenant user pin : Text) (db : Office)
      → (set_manager_pin h tenant user (some pin) db).0 ≡ ok tt
      → (t : TenantPin) × (is_pin pin ≡ true)
        × (find_tenant tenant (set_manager_pin h tenant user (some pin) db).1
            ≡ some (with_hash (some (h.hash pin)) t))
  unfolding set_manager_pin ◌>>=◌ with_tenant continue settle gets or_fail throw_if modify
  set_lem tenant user pin db e = elim (Bool-cases (is_pin pin)) [
    | inr v ↦ cc (rw v at e)
    | inl v ↦ elim (Option-cases (find_tenant tenant db)) [
      | inl f ↦ cc (rw (v, f) at e)
      | inr (t, f) ↦
          (t, v, rw v (rw f (find-update_where tenant (some (h.hash pin)) db.tenants t f)))
    ]
  ]

  -- No other text passes both tests.
  refuses :
      (pin entered : Text)
      → is_pin pin ≡ true
      → entered ≢ pin
      → (is_pin entered && h.verify entered (h.hash pin)) ≡ false
  refuses pin entered valid other = elim (Bool-cases (is_pin entered)) [
    | inr v ↦ rw v refl
    | inl v ↦ rw v (elim (Bool-cases (h.verify entered (h.hash pin))) [
      | inr w ↦ w
      | inl w ↦ absurd (other (h.verify_other pin entered valid v w))
    ])
  ]

  issued :
      (s : Signing) (ctx : SessionContext) (pin : Text) (now e : ℕ) (db : Office)
      → (unlock_with_manager_pin h s ctx pin now db).0 ≡ ok e
      → (unlock_with_manager_pin h s ctx pin now db).1.cookie
        ≡ some (
            make_token s
              (record { tenant = ctx.tenant_id; user = ctx.user_id; exp = now + unlock_ttl_ms }))
  unfolding unlock_with_manager_pin ◌>>=◌ modify pure
  issued s ctx pin now e db x =
      let one = bind_ok (check_pin h ctx.tenant_id pin) _ db e x in
      let two =
        bind_ok (throw_if (not one.0) forbidden) _ (check_pin h ctx.tenant_id pin db).1 e one.2 in
      ap (λ (r : Result ℕ × Office). r.1.cookie) (one.3 ∙ two.3)

  -- Once a PIN has been set for a tenant, whoever has a session there unlocks with it for half an hour,
  -- and any other text is refused with FORBIDDEN and changes nothing.
  pub unlock-set_manager_pin :
      (s : Signing) (ctx : SessionContext) (user pin entered : Text) (now : ℕ) (db : Office)
      → (set_manager_pin h ctx.tenant_id user (some pin) db).0 ≡ ok tt
      → let after = (set_manager_pin h ctx.tenant_id user (some pin) db).1 in
        (entered ≡ pin
          → (unlock_with_manager_pin h s ctx entered now after).0 ≡ ok (now + unlock_ttl_ms))
        × (entered ≢ pin
            → unlock_with_manager_pin h s ctx entered now after ≡ (err forbidden, after))
  unlock-set_manager_pin s ctx user pin entered now db e =
      let (t, valid, found) = set_lem ctx.tenant_id user pin db e in
      let after = (set_manager_pin h ctx.tenant_id user (some pin) db).1 in
      let unlocked = unlock_lem s ctx entered now after (with_hash (some (h.hash pin)) t) found in
      (
        λ same. unlocked.0 (rw same (rw (valid, h.hash_filled pin) (h.verify-hash pin valid))),
        λ other. unlocked.1 (rw (h.hash_filled pin) (refuses pin entered valid other)),
      )

  is_own_iff :
      (ctx : SessionContext) (tenant user : Text)
      → ((text_eq tenant ctx.tenant_id && text_eq user ctx.user_id) ≡ true)
        ↔ ((ctx.tenant_id ≡ tenant) × (ctx.user_id ≡ user))
  is_own_iff ctx tenant user =
      ground (arith, text_eq_iff tenant ctx.tenant_id, text_eq_iff user ctx.user_id)

  unexpired_iff : (exp later : ℕ) → (is_some (unexpired later (some exp)) ≡ true) ↔ (later < exp)
  unexpired_iff exp later = ground arith

  access_iff :
      {T U : Type 0} (role own : Bool) (exp later : ℕ)
      → ((own ≡ true) ↔ (T × U))
      → ((role || is_some (if own then unexpired later (some exp) else none)) ≡ true)
        ↔ ((role ≡ true) ⊎ (T × U × (later < exp)))
  access_iff true own exp later o = (λ _. inl refl, λ _. refl)
  access_iff false true exp later o =
      let (t, u) = o.0 refl in
      let live = unexpired_iff exp later in
      (λ e. inr (t, u, live.0 e), λ p. elim p [ inl e ↦ cc | inr x ↦ live.1 x.2 ])
  access_iff false false exp later o =
      (λ e. cc, λ p. elim p [ inl e ↦ cc | inr x ↦ cc (o.1 (x.0, x.1)) ])

  -- After an unlock a session sees the figures exactly when its role does without a PIN, or when it is
  -- of the same tenant and the same user and the half hour is not over: no other user of the browser,
  -- and nobody of another tenant, inherits it.
  pub access-unlock :
      (s : Signing) (ctx other : SessionContext) (pin : Text) (now e later : ℕ) (db : Office)
      → (unlock_with_manager_pin h s ctx pin now db).0 ≡ ok e
      → (has_financial_access s other later (unlock_with_manager_pin h s ctx pin now db).1 ≡ true)
        ↔ ((role_has_financial_access other.role ≡ true)
            ⊎ ((other.tenant_id ≡ ctx.tenant_id)
                × (other.user_id ≡ ctx.user_id)
                × (later < now + unlock_ttl_ms)))
  unfolding has_financial_access get_manager_unlock_expiry
  access-unlock s ctx other pin now e later db x =
      let payload : Payload = record {
        tenant = ctx.tenant_id;
        user = ctx.user_id;
        exp = now + unlock_ttl_ms;
      } in
      rw (issued s ctx pin now e db x) (
        rw (read_token-make_token s payload) (
          access_iff (role_has_financial_access other.role) _ payload.exp later
            (is_own_iff other ctx.tenant_id ctx.user_id)))

-- ===== src/Access/Invites/Inviting.antt =====
-- Invitations keep the number of users within the plan.
use estoque_saas.Base.{
  ℕ, suc, ◌+◌, ◌≤◌, ◌≡◌, refl, Bool, true, false, Option, none, some, ◌∷◌, Text, text_eq,
  text_eq_iff, arith, ltb, any, ◌&&◌,
}
use estoque_saas.Shared.Errors.{plan_limit_reached, conflict}
use estoque_saas.Shared.PlanLimits.{assert_within_plan_limit, limit_of}
use estoque_saas.Shared.Transaction.{
  ok, err, ◌>>=◌, pure, gets, modify, lift, or_throw, throw_if, with_tenant, continue, settle,
}
use estoque_saas.Access.Tokens.{Signing}
use estoque_saas.Access.Invites.{
  Company, Tenant, InviteUserInput, InviteUserResult, InviteContext, find_tenant, user_count,
  create_user, add_invited, send_link, invite_user, invited_user,
}

-- The address is one of the tenant's already.
abbrev pub is_taken : Text → Text → Company → Bool
is_taken tenant email db = any (λ x. text_eq x.tenant_id tenant && text_eq x.email email) db.users

add_full :
    (id : Text) (t : Tenant) (input : InviteUserInput) (db : Company)
    → ltb t.limits.max_users (user_count t.id db + 1) ≡ true
    → add_invited id t input db ≡ (err plan_limit_reached, db)
unfolding add_invited ◌>>=◌ continue gets lift with_tenant settle assert_within_plan_limit limit_of
add_full id t input db l = rw l refl

add_taken :
    (id : Text) (t : Tenant) (input : InviteUserInput) (db : Company)
    → ltb t.limits.max_users (user_count t.id db + 1) ≡ false
    → is_taken t.id input.email db ≡ true
    → add_invited id t input db ≡ (err conflict, db)
unfolding add_invited create_user ◌>>=◌ continue gets lift with_tenant settle throw_if
    assert_within_plan_limit limit_of
add_taken id t input db l e = rw (l, e) refl

add_done :
    (id : Text) (t : Tenant) (input : InviteUserInput) (db : Company)
    → ltb t.limits.max_users (user_count t.id db + 1) ≡ false
    → is_taken t.id input.email db ≡ false
    → add_invited id t input db
      ≡ (ok tt, record db { users = invited_user id t.id input ∷ db.users })
unfolding add_invited create_user ◌>>=◌ continue gets lift with_tenant settle throw_if modify
    assert_within_plan_limit limit_of
add_done id t input db l e = rw (l, e) refl

module _ (s : Signing) where
  -- Sending the link changes no user.
  sent :
      (id : Text) (t : Tenant) (input : InviteUserInput) (now : ℕ) (c : Option InviteContext)
      (db : Company)
      → (r : InviteUserResult) × ((send_link s id t input now c db).0 ≡ ok r)
        × (r.user_id ≡ id)
        × ((send_link s id t input now c db).1.users ≡ db.users)
  unfolding send_link ◌>>=◌ continue modify pure
  sent id t input now none db = (_, refl, refl, refl)
  sent id t input now (some c) db = (_, refl, refl, refl)

  -- What an invitation does, in a tenant that is there. Where the plan has no room for one more user it
  -- is refused with PLAN_LIMIT_REACHED, and where the address is a user's already with CONFLICT; no
  -- table changes. Otherwise it succeeds, and adds one user, which waits for its password.
  pub invite_user_lem :
      (id tenant : Text) (input : InviteUserInput) (c : Option InviteContext) (now : ℕ)
      (db : Company) (t : Tenant)
      → find_tenant tenant db ≡ some t
      → let run = invite_user s id tenant input c now db in
        (t.limits.max_users ≤ user_count t.id db → run ≡ (err plan_limit_reached, db))
        × (suc (user_count t.id db) ≤ t.limits.max_users
            → is_taken t.id input.email db ≡ true
            → run ≡ (err conflict, db))
        × (suc (user_count t.id db) ≤ t.limits.max_users
            → is_taken t.id input.email db ≡ false
            → (r : InviteUserResult) × (run.0 ≡ ok r)
              × (r.user_id ≡ id)
              × (run.1.users ≡ invited_user id t.id input ∷ db.users)
              × (user_count t.id run.1 ≡ suc (user_count t.id db)))
  unfolding invite_user ◌>>=◌ continue gets or_throw
  invite_user_lem id tenant input c now db t f = (
    λ full.
        let l : ltb t.limits.max_users (user_count t.id db + 1) ≡ true = ground arith in
        rw f (rw (add_full id t input db l) refl),
    λ room e.
        let l : ltb t.limits.max_users (user_count t.id db + 1) ≡ false = ground arith in
        rw f (rw (add_taken id t input db l e) refl),
    λ room e.
        let l : ltb t.limits.max_users (user_count t.id db + 1) ≡ false = ground arith in
        let added : Company = record db { users = invited_user id t.id input ∷ db.users } in
        let (r, answered, named, kept) = sent id t input now c added in
        rw f (
          rw (add_done id t input db l e)
            (r, answered, named, kept, rw kept (rw ((text_eq_iff t.id t.id).1 refl) refl))),
  )

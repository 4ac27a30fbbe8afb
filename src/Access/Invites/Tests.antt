-- ===== src/Access/Invites/Tests.antt =====
-- A company with one user who is invited.
use estoque_saas.Base.{suc, ◌+◌, ◌≤◌, ◌<◌, ◌≡◌, refl, true, false, none, some, [], ◌∷◌, Text}
use estoque_saas.Shared.Errors.{validation_error, plan_limit_reached, conflict}
use estoque_saas.Shared.Rbac.{vendedor}
use estoque_saas.Shared.Transaction.{ok, err, ◌>>=◌, with_tenant, throw_if, modify}
use estoque_saas.Access.Tokens.{make_token, read_token}
use estoque_saas.Access.Tokens.Tests.{plain}
use estoque_saas.Access.Invites.{
  Company, Tenant, User, InviteUserInput, InviteUserResult, invited, active, find_user, user_count,
  invite_ttl_ms, invited_user, create_invite_token, read_invite_token, load_pending_invite,
  accept_invite, invite_user,
}
use estoque_saas.Access.Invites.Accepting.{accept_invite_lem, accept_invite_once}
use estoque_saas.Access.Invites.Inviting.{invite_user_lem, is_taken}

abbrev store : Tenant
store = record {
  id = 2 ∷ [];
  name = 65 ∷ [];
  limits = record { max_products = 10; max_users = 2; max_stores = 1 };
}

abbrev ana : User
ana = record {
  id = 7 ∷ [];
  tenant_id = 2 ∷ [];
  name = 66 ∷ [];
  email = 67 ∷ [];
  password_hash = [];
  role = vendedor;
  status = invited;
}

abbrev company : Company
company = record { tenants = store ∷ []; users = ana ∷ []; emails = [] }

abbrev password : Text
password = 1 ∷ 2 ∷ 3 ∷ 4 ∷ 5 ∷ 6 ∷ 7 ∷ 8 ∷ []

abbrev salted : Text → Text
salted t = 0 ∷ t

abbrev link : Text
link = create_invite_token plain (2 ∷ []) (7 ∷ []) 100

accept_invite_lem_example :
    (8 ≤ 8
      → 200 ≤ 100 + invite_ttl_ms
      → ((accept_invite plain salted link password 200 company).0 ≡ ok (67 ∷ []))
        × (find_user (2 ∷ []) (7 ∷ []) (accept_invite plain salted link password 200 company).1
            ≡ some (record ana { password_hash = salted password; status = active })))
    × (8 < 8
        → accept_invite plain salted link password 200 company ≡ (err validation_error, company))
    × (100 + invite_ttl_ms < 200
        → accept_invite plain salted link password 200 company ≡ (err validation_error, company))
accept_invite_lem_example =
    accept_invite_lem plain salted (2 ∷ []) (7 ∷ []) password 100 200 company ana refl refl refl
      refl

reads : read_invite_token plain link 200 ≡ some (2 ∷ [], 7 ∷ [])
unfolding read_invite_token create_invite_token make_token read_token
reads = refl

accepts : (accept_invite plain salted link password 200 company).0 ≡ ok (67 ∷ [])
unfolding accept_invite load_pending_invite read_invite_token create_invite_token make_token
    read_token ◌>>=◌ throw_if with_tenant modify
accepts = refl

accept_invite_once_example :
    let after = (accept_invite plain salted link password 200 company).1 in
    accept_invite plain salted link (9 ∷ []) 200 after ≡ (err validation_error, after)
accept_invite_once_example =
    accept_invite_once plain salted link password 200 company (2 ∷ []) (7 ∷ []) (67 ∷ []) ana reads
      refl accepts link (9 ∷ []) 200 reads

abbrev bia : InviteUserInput
bia = record { name = 68 ∷ []; email = 69 ∷ []; role = vendedor }

invite_user_lem_example :
    let run = invite_user plain (8 ∷ []) (2 ∷ []) bia none 100 company in
    (2 ≤ user_count (2 ∷ []) company → run ≡ (err plan_limit_reached, company))
    × (suc (user_count (2 ∷ []) company) ≤ 2
        → is_taken (2 ∷ []) (69 ∷ []) company ≡ true
        → run ≡ (err conflict, company))
    × (suc (user_count (2 ∷ []) company) ≤ 2
        → is_taken (2 ∷ []) (69 ∷ []) company ≡ false
        → (r : InviteUserResult) × (run.0 ≡ ok r)
          × (r.user_id ≡ 8 ∷ [])
          × (run.1.users ≡ invited_user (8 ∷ []) (2 ∷ []) bia ∷ company.users)
          × (user_count (2 ∷ []) run.1 ≡ suc (user_count (2 ∷ []) company)))
invite_user_lem_example = invite_user_lem plain (8 ∷ []) (2 ∷ []) bia none 100 company store refl

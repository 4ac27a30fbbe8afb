-- ===== src/Access/Invites.antt =====
-- services/app/src/modules/auth/invite.ts: users are invited by a signed link, and choose a password.
use estoque_saas.Base.{
  ℕ, ◌+◌, ◌≡◌, Bool, true, false, not, ◌&&◌, Option, none, some, List, [], ◌∷◌, ◌++◌, Text, text_eq,
  truthy, is_some, length, ltb, if◌then◌else◌, find, any, select, update_where,
}
use estoque_saas.Shared.Errors.{validation_error, not_found, conflict}
use estoque_saas.Shared.PlanLimits.{PlanLimits, users, assert_within_plan_limit}
use estoque_saas.Shared.Rbac.{Role}
use estoque_saas.Shared.Transaction.{
  Action, Result, ok, err, crash, ◌>>=◌, ◌>>◌, pure, gets, modify, lift, or_throw, or_fail,
  throw_if, with_tenant,
}
use estoque_saas.Access.Tokens.{Claims, Payload, Signing, make_token, read_token}
pub mod Accepting
pub mod Inviting
pub mod Tests

pub data UserStatus : Type 0 where
  active invited : UserStatus

pub record User : Type 0 where
  pub id : Text
  pub tenant_id : Text
  pub name : Text
  pub email : Text
  pub password_hash : Text
  pub role : Role
  pub status : UserStatus

-- A tenant with the limits of its plan.
pub record Tenant : Type 0 where
  pub id : Text
  pub name : Text
  pub limits : PlanLimits

-- An email with its link.
pub record InviteEmail : Type 0 where
  pub to : Text
  pub name : Text
  pub tenant_name : Text
  pub invite_url : Text
  pub inviter_name : Option Text

pub record Company : Type 0 where
  pub tenants : List Tenant
  pub users : List User
  pub emails : List InviteEmail

-- `invite_url` is `buildInviteUrl` with the public address of the system.
pub record InviteContext : Type 0 where
  pub invite_url : Text → Text
  pub inviter_name : Option Text

pub record InviteUserInput : Type 0 where
  pub name : Text
  pub email : Text
  pub role : Role

pub record InviteUserResult : Type 0 where
  pub user_id : Text
  pub invite_url : Option Text

-- INVITE_TTL_MS
abbrev pub invite_ttl_ms : ℕ
invite_ttl_ms = 604800000

abbrev pub is_invited : UserStatus → Bool
is_invited invited = true
is_invited active = false

abbrev pub find_tenant : Text → Company → Option Tenant
find_tenant id db = find (λ t. text_eq t.id id) db.tenants

-- The row of a user as a transaction of the tenant sees it.
abbrev pub is_user : Text → Text → User → Bool
is_user tenant id u = text_eq u.tenant_id tenant && text_eq u.id id

abbrev pub find_user : Text → Text → Company → Option User
find_user tenant id db = find (is_user tenant id) db.users

-- `tx.user.count()`
abbrev pub user_count : Text → Company → ℕ
user_count tenant db = length (select (λ u. text_eq u.tenant_id tenant) db.users)

-- `sendInviteEmail`, which never throws.
send_invite_email : InviteContext → Text → Text → Text → Text → Action Company (Unit {0})
send_invite_email context to name tenant_name url = modify λ db. record db {
  emails =
      record {
        to = to;
        name = name;
        tenant_name = tenant_name;
        invite_url = url;
        inviter_name = context.inviter_name;
      }
      ∷ db.emails;
}

-- `tx.user.create`, with the unique index on tenant and email. The one error of the index that can
-- arise is turned into CONFLICT by `inviteUser`.
pub create_user : User → Action Company (Unit {0})
create_user u = do
  taken ←
      gets (λ db. any (λ x. text_eq x.tenant_id u.tenant_id && text_eq x.email u.email) db.users)
  throw_if taken conflict
  modify λ db. record db { users = u ∷ db.users }

abbrev pub invited_user : Text → Text → InviteUserInput → User
invited_user id tenant input = record {
  id = id;
  tenant_id = tenant;
  name = input.name;
  email = input.email;
  password_hash = [];
  role = input.role;
  status = invited;
}

-- The transaction of `inviteUser`.
pub add_invited : Text → Tenant → InviteUserInput → Action Company (Unit {0})
add_invited id t input = with_tenant (do
  current_user_count ← gets (user_count t.id)
  lift (assert_within_plan_limit users current_user_count t.limits 1)
  create_user (invited_user id t.id input))

abbrev pub pending : Option User → Option User
pending none = none
pending (some u) = if is_invited u.status then some u else none

abbrev pub accepted : Text → User → User
accepted hash u = record u { password_hash = hash; status = active }

module _ (s : Signing) where
  -- `createInviteToken`
  unfoldable pub create_invite_token : Text → Text → ℕ → Text
  create_invite_token tenant user now =
      make_token s (record { tenant = tenant; user = user; exp = now + invite_ttl_ms })

  abbrev pub claimed : ℕ → Option Text → Option Text → Option ℕ → Option (Text × Text)
  claimed now (some t) (some u) (some exp) =
      if truthy (some t) && truthy (some u) && not (ltb exp now) then some (t, u) else none
  claimed now _ _ _ = none

  abbrev pub claim : ℕ → Option Claims → Option (Text × Text)
  claim now none = none
  claim now (some c) = claimed now c.tenant c.user c.exp

  -- `readInviteToken`
  unfoldable pub read_invite_token : Text → ℕ → Option (Text × Text)
  read_invite_token token now = claim now (read_token s token)

  pub send_link :
      Text → Tenant → InviteUserInput → ℕ → Option InviteContext → Action Company InviteUserResult
  unfolding send_invite_email
  send_link id t input now none = pure (record { user_id = id; invite_url = none })
  send_link id t input now (some context) = do
    let url = context.invite_url (create_invite_token t.id id now)
    send_invite_email context input.email input.name t.name url
    pure (record { user_id = id; invite_url = some url })

  -- `inviteUser`; `id` is the random identifier of the new user.
  unfoldable pub invite_user :
      Text → Text → InviteUserInput → Option InviteContext → ℕ → Action Company InviteUserResult
  invite_user id tenant input context now = do
    found ← gets (find_tenant tenant)
    t ← or_throw found not_found
    add_invited id t input
    send_link id t input now context

  -- `resendInvite`
  unfoldable pub resend_invite : Text → Text → InviteContext → ℕ → Action Company Text
  unfolding send_invite_email
  resend_invite tenant id context now = do
    found_user ← gets (find_user tenant id)
    found ← gets (find_tenant tenant)
    t ← or_fail found
    user ← or_throw found_user not_found
    throw_if (not (is_invited user.status)) conflict
    let url = context.invite_url (create_invite_token tenant id now)
    send_invite_email context user.email user.name t.name url
    pure url

  -- `loadPendingInvite`: the tenant, the user, and the user's row.
  pub load_pending_invite : Text → ℕ → Action Company (Text × Text × User)
  load_pending_invite token now = do
    parsed ← or_throw (read_invite_token token now) validation_error
    found ← gets (find_user parsed.0 parsed.1)
    user ← or_throw (pending found) validation_error
    pure (parsed.0, parsed.1, user)

  -- `acceptInvite`; `hash` is what `hashPassword` makes of the password.
  unfoldable pub accept_invite : (Text → Text) → Text → Text → ℕ → Action Company Text
  accept_invite hash token password now = do
    throw_if (ltb (length password) 8) validation_error
    (tenant, id, user) ← load_pending_invite token now
    with_tenant (
        modify λ db. record db {
          users = update_where (is_user tenant id) (accepted (hash password)) db.users;
        })
    pure user.email

-- ===== src/Access/ManagerPin.antt =====
-- services/app/src/modules/auth/manager-pin.ts: the manager's PIN, which opens the figures of a tenant
-- to a seller for half an hour.
use estoque_saas.Base.{
  ℕ, ◌+◌, ◌≡◌, Bool, true, false, not, ◌&&◌, ◌||◌, Option, none, some, List, [], ◌∷◌, Text, text_eq,
  truthy, is_some, length, leb, ltb, if◌then◌else◌, find, update_where, any,
}
use estoque_saas.Shared.Errors.{validation_error, forbidden}
use estoque_saas.Shared.Rbac.{Role, admin, operador, vendedor}
use estoque_saas.Shared.Transaction.{
  Action, Result, ok, err, crash, ◌>>=◌, ◌>>◌, pure, gets, modify, or_throw, or_fail, throw_if,
  with_tenant,
}
use estoque_saas.Access.{SessionContext}
use estoque_saas.Access.Tokens.{Claims, Payload, Signing, make_token, read_token}
pub mod Unlocking
pub mod Tests

pub record TenantPin : Type 0 where
  pub id : Text
  pub manager_pin_hash : Option Text

pub record PinAudit : Type 0 where
  pub tenant : Text
  pub user : Text
  pub defined : Bool

-- The tenants' hashes, the audit, and the cookie of the one browser that is looked at.
pub record Office : Type 0 where
  pub tenants : List TenantPin
  pub audits : List PinAudit
  pub cookie : Option Text

-- UNLOCK_TTL_MS
abbrev pub unlock_ttl_ms : ℕ
unlock_ttl_ms = 1800000

abbrev is_digit : ℕ → Bool
is_digit c = leb b'0' c && leb c b'9'

-- PIN_REGEX
unfoldable pub is_pin : Text → Bool
is_pin pin = leb 4 (length pin) && leb (length pin) 8 && not (any (λ c. not (is_digit c)) pin)

-- bcrypt, the library behind `hashPassword` and `verifyPassword`, with the salts it has drawn: a PIN verifies against a hash of it, and
-- no other PIN does. A hash is not empty.
pub record Hashing : Type 0 where
  pub hash : Text → Text
  pub verify : Text → Text → Bool
  pub hash_filled : (pin : Text) → truthy (some (hash pin)) ≡ true
  pub verify-hash : (pin : Text) → is_pin pin ≡ true → verify pin (hash pin) ≡ true
  pub verify_other :
      (pin other : Text)
      → is_pin pin ≡ true
      → is_pin other ≡ true
      → verify other (hash pin) ≡ true
      → other ≡ pin

abbrev pub role_has_financial_access : Role → Bool
role_has_financial_access admin = true
role_has_financial_access operador = true
role_has_financial_access vendedor = false

abbrev pub find_tenant : Text → Office → Option TenantPin
find_tenant id db = find (λ t. text_eq t.id id) db.tenants

abbrev pub with_hash : Option Text → TenantPin → TenantPin
with_hash hash t = record t { manager_pin_hash = hash }

-- `getManagerPinConfigured`
unfoldable pub get_manager_pin_configured : Text → Action Office Bool
get_manager_pin_configured tenant =
    with_tenant
      (do found ← gets (find_tenant tenant); t ← or_fail found; pure (truthy t.manager_pin_hash))

module _ (h : Hashing) where
  abbrev pub hash_of : Option Text → Option Text
  hash_of none = none
  hash_of (some pin) = some (h.hash pin)

  abbrev pub is_bad : Option Text → Bool
  is_bad none = false
  is_bad (some pin) = not (is_pin pin)

  -- `setManagerPin`
  unfoldable pub set_manager_pin : Text → Text → Option Text → Action Office (Unit {0})
  set_manager_pin tenant user pin =
      throw_if (is_bad pin) validation_error
      >> with_tenant (do
        found ← gets (find_tenant tenant)
        t ← or_fail found
        modify λ db. record db {
          tenants = update_where (λ t. text_eq t.id tenant) (with_hash (hash_of pin)) db.tenants;
          audits = record { tenant = tenant; user = user; defined = is_some pin } ∷ db.audits;
        })

  abbrev pub matches : Text → Option Text → Bool
  matches pin none = false
  matches pin (some hash) = truthy (some hash) && h.verify pin hash

  -- `verifyManagerPin`
  unfoldable pub verify_manager_pin : Text → Text → Action Office Bool
  verify_manager_pin tenant pin = do
    hash ←
        with_tenant
          (do found ← gets (find_tenant tenant); t ← or_fail found; pure t.manager_pin_hash)
    pure (matches pin hash)

  -- The two tests of `unlockWithManagerPin`: the second is not made where the first fails.
  pub check_pin : Text → Text → Action Office Bool
  check_pin tenant pin = elim (is_pin pin) [
    | true ↦ verify_manager_pin tenant pin
    | false ↦ pure false
  ]

  -- `unlockWithManagerPin`
  unfoldable pub unlock_with_manager_pin : Signing → SessionContext → Text → ℕ → Action Office ℕ
  unlock_with_manager_pin s ctx pin now = do
    valid ← check_pin ctx.tenant_id pin
    throw_if (not valid) forbidden
    let exp = now + unlock_ttl_ms
    modify λ db. record db {
      cookie =
          some (make_token s (record { tenant = ctx.tenant_id; user = ctx.user_id; exp = exp }));
    }
    pure exp

-- `lockManagerArea`
unfoldable pub lock_manager_area : Action Office (Unit {0})
lock_manager_area = modify λ db. record db { cookie = none }

abbrev is_own : SessionContext → Option Text → Option Text → Bool
is_own ctx (some t) (some u) = text_eq t ctx.tenant_id && text_eq u ctx.user_id
is_own ctx _ _ = false

abbrev pub unexpired : ℕ → Option ℕ → Option ℕ
unexpired now none = none
unexpired now (some exp) = if leb exp now then none else some exp

-- The expiry of a payload of the session's own tenant and user that has not run out.
abbrev pub live_expiry : SessionContext → ℕ → Option Claims → Option ℕ
live_expiry ctx now none = none
live_expiry ctx now (some c) = if is_own ctx c.tenant c.user then unexpired now c.exp else none

abbrev pub read_cookie : Signing → Option Text → Option Claims
read_cookie s none = none
read_cookie s (some token) = read_token s token

-- `getManagerUnlockExpiry`
unfoldable pub get_manager_unlock_expiry : Signing → SessionContext → ℕ → Office → Option ℕ
get_manager_unlock_expiry s ctx now db = live_expiry ctx now (read_cookie s db.cookie)

-- `hasFinancialAccess`
unfoldable pub has_financial_access : Signing → SessionContext → ℕ → Office → Bool
unfolding get_manager_unlock_expiry
has_financial_access s ctx now db =
    role_has_financial_access ctx.role || is_some (get_manager_unlock_expiry s ctx now db)

-- `requireFinancialAccess`, after `requireSession` has answered the session.
unfoldable pub require_financial_access :
    Signing → SessionContext → ℕ → Action Office SessionContext
unfolding has_financial_access
require_financial_access s ctx now = do
  allowed ← gets (has_financial_access s ctx now)
  throw_if (not allowed) forbidden
  pure ctx

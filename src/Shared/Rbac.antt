-- ===== src/Shared/Rbac.antt =====
-- libs/shared/src/rbac/index.ts (the server's permissions) and services/app/src/lib/rbac.ts (the
-- client's, which only hide actions).
use estoque_saas.Base.{◌≡◌, ◌⊎◌, Bool, true, false, Option, none, some, arith}

pub data Role : Type 0 where
  admin operador vendedor : Role

pub data Permission : Type 0 where
  catalog_write catalog_read stock_write stock_read sales_write sales_read : Permission
  users_manage billing_manage tenant_manage dashboard_read : Permission

-- PERMISSIONS and `can` of the server.
unfoldable pub can : Role → Permission → Bool
can admin p = true
can operador catalog_write = true
can operador catalog_read = true
can operador stock_write = true
can operador stock_read = true
can operador sales_write = true
can operador sales_read = true
can operador dashboard_read = true
can operador p = false
can vendedor catalog_read = true
can vendedor stock_read = true
can vendedor sales_write = true
can vendedor sales_read = true
can vendedor p = false

-- The permissions of the client.
pub data ClientPermission : Type 0 where
  settings_view users_manage stores_manage billing_manage catalog_manage : ClientPermission
  catalog_view_cost stock_entry stock_exit stock_transfer stock_nfe_import : ClientPermission
  sales_create sales_view : ClientPermission

-- ROLE_PERMISSIONS and `can` of the client; `none` is a session that is not loaded.
unfoldable pub client_can : Option Role → ClientPermission → Bool
client_can none a = false
client_can (some admin) a = true
client_can (some operador) ClientPermission.catalog_manage = true
client_can (some operador) ClientPermission.catalog_view_cost = true
client_can (some operador) ClientPermission.stock_entry = true
client_can (some operador) ClientPermission.stock_exit = true
client_can (some operador) ClientPermission.stock_transfer = true
client_can (some operador) ClientPermission.stock_nfe_import = true
client_can (some operador) ClientPermission.sales_view = true
client_can (some operador) a = false
client_can (some vendedor) ClientPermission.sales_create = true
client_can (some vendedor) ClientPermission.sales_view = true
client_can (some vendedor) a = false

-- The permissions of a vendedor are among those of an operador, and an admin has every permission of
-- the server and of the client; users, billing and the tenant itself are managed by an admin only.
pub can_by_role :
    (p : Permission) (a : ClientPermission)
    → (can vendedor p ≡ true → can operador p ≡ true)
      × (can admin p ≡ true)
      × (client_can (some admin) a ≡ true)
      × ((r : Role)
            (manages : Permission.users_manage ≡ p ⊎ (billing_manage ≡ p ⊎ tenant_manage ≡ p))
          → can r p ≡ true
          → r ≡ admin)
unfolding can client_can
can_by_role p a = ground arith

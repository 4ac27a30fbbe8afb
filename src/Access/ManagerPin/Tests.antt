-- ===== src/Access/ManagerPin/Tests.antt =====
-- A shop whose manager sets a PIN.
use estoque_saas.Base.{
  ◌≡◌, ◌≢◌, ◌<◌, ◌↔◌, ◌⊎◌, refl, true, none, some, [], ◌∷◌, Text, text_eq, text_eq_iff,
}
use estoque_saas.Shared.Errors.{forbidden}
use estoque_saas.Shared.Rbac.{vendedor}
use estoque_saas.Shared.Transaction.{ok, err, ◌>>=◌, with_tenant, throw_if, modify}
use estoque_saas.Access.{SessionContext}
use estoque_saas.Access.Tokens.Tests.{plain}
use estoque_saas.Access.ManagerPin.{
  Office, Hashing, is_pin, set_manager_pin, verify_manager_pin, check_pin, unlock_with_manager_pin,
  has_financial_access, role_has_financial_access,
}
use estoque_saas.Access.ManagerPin.Unlocking.{unlock-set_manager_pin, access-unlock}

same_tail : (pin other : Text) → text_eq (1 ∷ other) (1 ∷ pin) ≡ true → other ≡ pin
same_tail pin other h = (text_eq_iff other pin).0 h

same_self : (pin : Text) → text_eq (1 ∷ pin) (1 ∷ pin) ≡ true
same_self pin = (text_eq_iff pin pin).1 refl

abbrev prefixed : Hashing
prefixed = record {
  hash = λ pin. 1 ∷ pin;
  verify = λ pin hash. text_eq (1 ∷ pin) hash;
  hash_filled = λ pin. refl;
  verify-hash = λ pin valid. same_self pin;
  verify_other = λ pin other valid tried h. same_tail pin other h;
}

abbrev pin_1234 : Text
pin_1234 = 49 ∷ 50 ∷ 51 ∷ 52 ∷ []

abbrev office : Office
office = record {
  tenants = record { id = 2 ∷ []; manager_pin_hash = none } ∷ [];
  audits = [];
  cookie = none;
}

abbrev seller : SessionContext
seller = record { tenant_id = 2 ∷ []; user_id = 5 ∷ []; role = vendedor }

sets : (set_manager_pin prefixed (2 ∷ []) (1 ∷ []) (some pin_1234) office).0 ≡ ok tt
unfolding set_manager_pin ◌>>=◌ with_tenant throw_if modify is_pin
sets = refl

abbrev guarded : Office
guarded = record office {
  tenants = record { id = 2 ∷ []; manager_pin_hash = some (1 ∷ pin_1234) } ∷ [];
}

unlocks : (unlock_with_manager_pin prefixed plain seller pin_1234 100 guarded).0 ≡ ok 1800100
unfolding unlock_with_manager_pin check_pin verify_manager_pin ◌>>=◌ with_tenant throw_if modify
    is_pin
unlocks = refl

unlock-set_manager_pin_example :
    let after = (set_manager_pin prefixed (2 ∷ []) (1 ∷ []) (some pin_1234) office).1 in
    (◌≡◌ {A = Text} (49 ∷ []) pin_1234
      → (unlock_with_manager_pin prefixed plain seller (49 ∷ []) 100 after).0 ≡ ok 1800100)
    × (◌≢◌ {A = Text} (49 ∷ []) pin_1234
        → unlock_with_manager_pin prefixed plain seller (49 ∷ []) 100 after
          ≡ (err forbidden, after))
unlock-set_manager_pin_example =
    unlock-set_manager_pin prefixed plain seller (1 ∷ []) pin_1234 (49 ∷ []) 100 office sets

access-unlock_example :
    (has_financial_access plain seller 1800099
        (unlock_with_manager_pin prefixed plain seller pin_1234 100 guarded).1
      ≡ true)
    ↔ ((role_has_financial_access vendedor ≡ true)
        ⊎ ((seller.tenant_id ≡ seller.tenant_id)
            × (seller.user_id ≡ seller.user_id)
            × (1800099 < 1800100)))
access-unlock_example =
    access-unlock prefixed plain seller seller pin_1234 100 1800100 1800099 guarded unlocks

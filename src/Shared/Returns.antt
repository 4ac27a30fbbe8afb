-- ===== src/Shared/Returns.antt =====
-- A rule for what the steps of a transaction return, when they return.
use mathlib.Core.Path.{subst}
use estoque_saas.Base.{◌≡◌}
use estoque_saas.Shared.Errors.{ErrorCode}
use estoque_saas.Shared.Transaction.{
  Action, ok, ◌>>=◌, pure, throw, fail, with_tenant, with_tenant_ok, bind_ok,
}

pub record Returns {S A : Type 0} (P : A → Type 0) (m : Action S A) : Type 0 where
  pub at_state : (s : S) (a : A) → (m s).0 ≡ ok a → P a

module _ {S A : Type 0} (P : A → Type 0) where
  pub pure-Returns : (a : A) → P a → Returns {S = S} P (pure a)
  unfolding pure
  pure-Returns a h = record { at_state = λ s b e. subst P (cc) h }

  pub throw-Returns : (e : ErrorCode) → Returns {S = S} P (throw e)
  unfolding throw
  throw-Returns e = record { at_state = λ s a h. cc }

  pub fail-Returns : Returns {S = S} P fail
  unfolding fail
  fail-Returns = record { at_state = λ s a h. cc }

  pub with_tenant-Returns : (m : Action S A) → Returns P m → Returns P (with_tenant m)
  with_tenant-Returns m h = record { at_state = λ s a e. h.at_state s a (with_tenant_ok m s a e).1 }

module _ {S A B : Type 0} (P : A → Type 0) (Q : B → Type 0) where
  pub bind-Returns :
      (m : Action S A) (k : A → Action S B)
      → Returns P m
      → ((a : A) → P a → Returns Q (k a))
      → Returns Q (m >>= k)
  bind-Returns m k first next = record {
    at_state = λ s b e.
        let step = bind_ok m k s b e in
        (next step.0 (first.at_state s step.0 step.1)).at_state (m s).1 b step.2;
  }

module _ {S A B : Type 0} (Q : B → Type 0) where
  -- Whatever the first step returns.
  pub then-Returns :
      (m : Action S A) (k : A → Action S B) → ((a : A) → Returns Q (k a)) → Returns Q (m >>= k)
  then-Returns m k next =
      bind-Returns (λ _. Unit) Q m k (record { at_state = λ s a e. tt }) λ a _. next a

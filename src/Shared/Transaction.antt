-- ===== src/Shared/Transaction.antt =====
-- libs/shared/src/db/client.ts: `withTenant`, an interactive transaction on a tenant's rows. A
-- callback changes the rows as it goes and may throw on the way; the transaction commits what a
-- callback that returns has written, and rolls back all of what one that throws has written.
-- Row-level security shows a transaction the rows of its tenant only, so a state holds one tenant's.
use estoque_saas.Base.{◌≡◌, refl, ap, Bool, true, false, Option, none, some}
use estoque_saas.Shared.Errors.{ErrorCode}

-- What a call ends with: a value, or an error of the given code; `crash` is an error that is not an
-- `AppError`.
pub data Result (A : Type 0) : Type 0 where
  ok : A → Result A
  err : ErrorCode → Result A
  crash : Result A

-- The state comes back after a throw too, with what was written before it.
abbrev pub Action : Type 0 → Type 0 → Type 0
Action S A = S → Result A × S

module _ {S A : Type 0} where
  unfoldable pub pure : A → Action S A
  pure a s = (ok a, s)

  unfoldable pub throw : ErrorCode → Action S A
  throw e s = (err e, s)

  unfoldable pub fail : Action S A
  fail s = (crash, s)

  unfoldable pub gets : (S → A) → Action S A
  gets f s = (ok (f s), s)

  unfoldable pub lift : Result A → Action S A
  lift r s = (r, s)

  -- `findUnique` and a throw where it finds nothing.
  unfoldable pub or_throw : Option A → ErrorCode → Action S A
  or_throw none e s = (err e, s)
  or_throw (some a) e s = (ok a, s)

  -- `findUniqueOrThrow`
  unfoldable pub or_fail : Option A → Action S A
  or_fail none s = (crash, s)
  or_fail (some a) s = (ok a, s)

module _ {S A B : Type 0} where
  -- What is done to the result and the state of a step.
  unfoldable pub continue : (A → Action S B) → Result A × S → Result B × S
  continue f (ok a, s) = f a s
  continue f (err e, s) = (err e, s)
  continue f (crash, s) = (crash, s)

  infixl 5 ◌>>=◌ ◌>>◌
  -- To open this is to open the steps above.
  unfoldable pub ◌>>=◌ : Action S A → (A → Action S B) → Action S B
  unfolding pure throw fail gets lift or_throw or_fail continue
  ◌>>=◌ m f s = continue f (m s)

  abbrev pub ◌>>◌ : Action S A → Action S B → Action S B
  m >> k = m >>= λ _. k

unfoldable pub modify : {S : Type 0} → (S → S) → Action S (Unit {0})
modify f s = (ok tt, f s)

unfoldable pub throw_if : {S : Type 0} → Bool → ErrorCode → Action S (Unit {0})
throw_if true e s = (err e, s)
throw_if false e s = (ok tt, s)

-- `withTenant`: the state after a throw is the state before the transaction.
module _ {S A : Type 0} where
  unfoldable pub settle : S → Result A × S → Result A × S
  settle before (ok a, after) = (ok a, after)
  settle before (err e, after) = (err e, before)
  settle before (crash, after) = (crash, before)

  unfoldable pub with_tenant : Action S A → Action S A
  unfolding settle
  with_tenant m s = settle s (m s)

module _ {S A B : Type 0} where
  continue_ok :
      (k : A → Action S B) (r : Result A × S) (b : B)
      → (continue k r).0 ≡ ok b
      → (a : A) × (r.0 ≡ ok a) × ((k a r.1).0 ≡ ok b) × (continue k r ≡ k a r.1)
  unfolding continue
  continue_ok k (ok a, s) b e = (a, refl, e, refl)
  continue_ok k (err c, s) b e = cc
  continue_ok k (crash, s) b e = cc

  -- A sequence that returns: its first step has returned, and then its second.
  pub bind_ok :
      (m : Action S A) (k : A → Action S B) (s : S) (b : B)
      → ((m >>= k) s).0 ≡ ok b
      → (a : A) × ((m s).0 ≡ ok a) × ((k a (m s).1).0 ≡ ok b) × ((m >>= k) s ≡ k a (m s).1)
  unfolding ◌>>=◌
  bind_ok m k s b e = continue_ok k (m s) b e

module _ {S A : Type 0} where
  settle_ok :
      (s : S) (r : Result A × S) (a : A) → (settle s r).0 ≡ ok a → (settle s r ≡ r) × (r.0 ≡ ok a)
  unfolding settle
  settle_ok s (ok b, s') a e = (refl, e)
  settle_ok s (err c, s') a e = cc
  settle_ok s (crash, s') a e = cc

  -- A transaction that commits did its steps.
  pub with_tenant_ok :
      (m : Action S A) (s : S) (a : A)
      → (with_tenant m s).0 ≡ ok a
      → (with_tenant m s ≡ m s) × ((m s).0 ≡ ok a)
  unfolding with_tenant
  with_tenant_ok m s a e = settle_ok s (m s) a e

  -- A transaction whose steps return.
  pub with_tenant_commits :
      (m : Action S A) (s : S) (a : A) (after : S)
      → m s ≡ (ok a, after)
      → with_tenant m s ≡ (ok a, after)
  unfolding with_tenant settle
  with_tenant_commits m s a after e = ap (settle s) e

-- ===== src/Shared/Fixes.antt =====
-- A rule for the steps of a transaction that leave a part of the state as it is, whether they return
-- or throw.
use estoque_saas.Base.{◌≡◌, refl, ◌∙◌, Bool, true, false, Option, none, some}
use estoque_saas.Shared.Errors.{ErrorCode}
use estoque_saas.Shared.Transaction.{
  Action, Result, ok, err, crash, ◌>>=◌, pure, throw, gets, lift, or_throw, or_fail, throw_if,
  modify, with_tenant, settle, continue,
}

pub record Fixes {S A X : Type 0} (part : S → X) (m : Action S A) : Type 0 where
  pub at_state : (s : S) → part (m s).1 ≡ part s

module _ {S A X : Type 0} (part : S → X) where
  pub pure-Fixes : (a : A) → Fixes part (pure a)
  unfolding pure
  pure-Fixes a = record { at_state = λ s. refl }

  pub throw-Fixes : (e : ErrorCode) → Fixes part (throw {A = A} e)
  unfolding throw
  throw-Fixes e = record { at_state = λ s. refl }

  pub gets-Fixes : (f : S → A) → Fixes part (gets f)
  unfolding gets
  gets-Fixes f = record { at_state = λ s. refl }

  pub lift-Fixes : (r : Result A) → Fixes part (lift r)
  unfolding lift
  lift-Fixes r = record { at_state = λ s. refl }

  pub or_throw-Fixes : (o : Option A) (e : ErrorCode) → Fixes part (or_throw o e)
  unfolding or_throw
  or_throw-Fixes none e = record { at_state = λ s. refl }
  or_throw-Fixes (some a) e = record { at_state = λ s. refl }

  pub or_fail-Fixes : (o : Option A) → Fixes part (or_fail o)
  unfolding or_fail
  or_fail-Fixes none = record { at_state = λ s. refl }
  or_fail-Fixes (some a) = record { at_state = λ s. refl }

  pub fixes : (m : Action S A) → ((s : S) → part (m s).1 ≡ part s) → Fixes part m
  fixes m h = record { at_state = h }

  settle-part :
      (before : S) (r : Result A × S)
      → part r.1 ≡ part before
      → part (settle before r).1 ≡ part before
  unfolding settle
  settle-part before (ok a, after) h = h
  settle-part before (err e, after) h = refl
  settle-part before (crash, after) h = refl

  pub with_tenant-Fixes : (m : Action S A) → Fixes part m → Fixes part (with_tenant m)
  unfolding with_tenant
  with_tenant-Fixes m h = record { at_state = λ s. settle-part s (m s) (h.at_state s) }

  pub Option-Fixes :
      {B : Type 0} (n : Action S A) (k : B → Action S A) (o : Option B)
      → Fixes part n
      → ((b : B) → Fixes part (k b))
      → Fixes part (elim o [ none ↦ n | some b ↦ k b ])
  Option-Fixes n k none h g = h
  Option-Fixes n k (some b) h g = g b

module _ {S X : Type 0} (part : S → X) where
  pub throw_if-Fixes : (b : Bool) (e : ErrorCode) → Fixes part (throw_if b e)
  unfolding throw_if
  throw_if-Fixes true e = record { at_state = λ s. refl }
  throw_if-Fixes false e = record { at_state = λ s. refl }

  pub modify-Fixes : (f : S → S) → ((s : S) → part (f s) ≡ part s) → Fixes part (modify f)
  unfolding modify
  modify-Fixes f h = record { at_state = h }

module _ {S A B X : Type 0} (part : S → X) where
  continue-part :
      (k : A → Action S B) (s : S) (r : Result A × S)
      → part r.1 ≡ part s
      → ((a : A) → Fixes part (k a))
      → part (continue k r).1 ≡ part s
  unfolding continue
  continue-part k s (ok a, s') h g = (g a).at_state s' ∙ h
  continue-part k s (err e, s') h g = h
  continue-part k s (crash, s') h g = h

  pub bind-Fixes :
      (m : Action S A) (k : A → Action S B)
      → Fixes part m
      → ((a : A) → Fixes part (k a))
      → Fixes part (m >>= k)
  unfolding ◌>>=◌
  bind-Fixes m k h g = record { at_state = λ s. continue-part k s (m s) (h.at_state s) g }

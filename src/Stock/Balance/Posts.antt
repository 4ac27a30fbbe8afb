-- ===== src/Stock/Balance/Posts.antt =====
-- A rule for the steps of a transaction: what each does to the stock, and what its result satisfies.
use mathlib.Core.Path.{subst}
use estoque_saas.Base.{
  ℕ, ◌≡◌, refl, Bool, true, false, Option, none, some, arith, ℤ, pos, ◌+ℤ◌, neg, int_laws,
}
use estoque_saas.Shared.Transaction.{
  Action, Result, ok, err, crash, ◌>>=◌, pure, with_tenant, settle, continue, gets, or_throw,
  or_fail, throw_if,
}
use estoque_saas.Shared.Errors.{ErrorCode}
use estoque_saas.Stock.Rows.{Movement, EntityType, AuditAction}
use estoque_saas.Stock.Db.{Db, increment_batch, record_audit, lock_stock_row}
use estoque_saas.Stock.Balance.{post_movement}
use estoque_saas.Stock.Balance.Ledger.{
  IsConsistent, Change, at, Shifts, Shifts-trans, Shifts-quiet, post_movement_lem,
}

-- If the step returns, the stock has shifted by `change` and the result satisfies `P`.
pub record Posts {A : Type 0} (m : Action Db A) (change : Change) (P : A → Type 0) : Type 0 where
  pub at_state :
      (db : Db)
      → IsConsistent db.clock db.movements
      → (a : A) → (m db).0 ≡ ok a
      → Shifts db change (m db).1 × P a

abbrev pub Any : {A : Type 0} → A → Type 0
Any _ = Unit

abbrev pub unchanged : Change
unchanged _ _ = pos 0

-- How a transaction ends: it shifts the stock by `change`, or it leaves every table as it was.
abbrev pub Outcome : {A : Type 0} → Db → Change → Result A × Db → Type 0
Outcome db change (ok a, after) = Shifts db change after
Outcome db change (err e, after) = after ≡ db
Outcome db change (crash, after) = after ≡ db

module _ {A B : Type 0} where
  continue-Posts :
      (k : A → Action Db B) (f g h : Change) (P : A → Type 0) (Q : B → Type 0)
      → ((a : A) → P a → Posts (k a) g Q)
      → ((p s : ℕ) → h p s ≡ f p s +ℤ g p s)
      → (db : Db) (r : Result A × Db) → ((a : A) → r.0 ≡ ok a → Shifts db f r.1 × P a)
      → (b : B) → (continue k r).0 ≡ ok b
      → Shifts db h (continue k r).1 × Q b
  unfolding continue
  continue-Posts k f g h P Q next e db (ok a, db') first b x =
      let one = first a refl in
      let two = (next a one.1).at_state db' one.0.consistent b x in
      (Shifts-trans db db' (k a db').1 f g h one.0 two.0 e, two.1)
  continue-Posts k f g h P Q next e db (err c, db') first b x = cc
  continue-Posts k f g h P Q next e db (crash, db') first b x = cc

  pub bind-Posts :
      (m : Action Db A) (k : A → Action Db B) (f g h : Change) (P : A → Type 0) (Q : B → Type 0)
      → Posts m f P
      → ((a : A) → P a → Posts (k a) g Q)
      → ((p s : ℕ) → h p s ≡ f p s +ℤ g p s)
      → Posts (m >>= k) h Q
  unfolding ◌>>=◌
  bind-Posts m k f g h P Q first next e = record {
    at_state = λ db c b x. continue-Posts k f g h P Q next e db (m db) (first.at_state db c) b x;
  }

  -- A step that is unchanged in what it does to the stock.
  pub then-Posts :
      (m : Action Db A) (k : A → Action Db B) (g : Change) (P : A → Type 0) (Q : B → Type 0)
      → Posts m unchanged P
      → ((a : A) → P a → Posts (k a) g Q)
      → Posts (m >>= k) g Q
  then-Posts m k g P Q first next =
      bind-Posts m k unchanged g g P Q first next (λ p s. grind int_laws)

  pub first-Posts :
      (m : Action Db A) (k : A → Action Db B) (f : Change) (P : A → Type 0) (Q : B → Type 0)
      → Posts m f P
      → ((a : A) → P a → Posts (k a) unchanged Q)
      → Posts (m >>= k) f Q
  first-Posts m k f P Q first next =
      bind-Posts m k f unchanged f P Q first next (λ p s. grind int_laws)

module _ {A : Type 0} where
  -- The change may be written otherwise.
  pub same-Posts :
      (m : Action Db A) (f g : Change) (P : A → Type 0)
      → Posts m f P
      → ((p s : ℕ) → g p s ≡ f p s)
      → Posts m g P
  same-Posts m f g P h e = record {
    at_state = λ db c a x.
        let r = h.at_state db c a x in
        (
          record { consistent = r.0.consistent; shifted = λ p s. rw (e p s) (r.0.shifted p s) },
          r.1,
        );
  }

  -- A step that touches no movement.
  pub quiet-Posts :
      (m : Action Db A) (P : A → Type 0)
      → ((db : Db) → ((m db).1.movements ≡ db.movements) × ((m db).1.clock ≡ db.clock))
      → ((db : Db) (a : A) → (m db).0 ≡ ok a → P a)
      → Posts m unchanged P
  quiet-Posts m P q h = record {
    at_state = λ db c a x.
        (Shifts-quiet db (m db).1 unchanged c (q db).0 (q db).1 (λ _ _. refl), h db a x);
  }

  pub pure-Posts : (a : A) (P : A → Type 0) → P a → Posts (pure a) unchanged P
  unfolding pure
  pure-Posts a P h = record {
    at_state = λ db c b x. (Shifts-quiet db db unchanged c refl refl (λ _ _. refl), subst P (cc) h);
  }

  pub gets-Posts : (f : Db → A) → Posts (gets f) unchanged Any
  unfolding gets
  gets-Posts f = quiet-Posts (gets f) Any (λ db. (refl, refl)) (λ _ _ _. tt)

  pub or_throw-Posts : (o : Option A) (e : ErrorCode) → Posts (or_throw o e) unchanged Any
  unfolding or_throw
  or_throw-Posts none e = quiet-Posts (or_throw none e) Any (λ db. (refl, refl)) (λ _ _ _. tt)
  or_throw-Posts (some a) e =
      quiet-Posts (or_throw (some a) e) Any (λ db. (refl, refl)) (λ _ _ _. tt)

  pub or_fail-Posts : (o : Option A) → Posts (or_fail o) unchanged Any
  unfolding or_fail
  or_fail-Posts none = quiet-Posts (or_fail none) Any (λ db. (refl, refl)) (λ _ _ _. tt)
  or_fail-Posts (some a) = quiet-Posts (or_fail (some a)) Any (λ db. (refl, refl)) (λ _ _ _. tt)

  pub settle-Outcome :
      (db : Db) (change : Change) (r : Result A × Db)
      → ((a : A) → r.0 ≡ ok a → Shifts db change r.1)
      → Outcome db change (settle db r)
  unfolding settle
  settle-Outcome db change (ok a, after) h = h a refl
  settle-Outcome db change (err e, after) h = refl
  settle-Outcome db change (crash, after) h = refl

  -- A transaction commits what its steps did to the stock, or leaves every table alone.
  pub with_tenant-Outcome :
      (m : Action Db A) (change : Change) (P : A → Type 0) (db : Db)
      → Posts m change P
      → IsConsistent db.clock db.movements
      → Outcome db change (with_tenant m db)
  unfolding with_tenant
  with_tenant-Outcome m change P db h c =
      settle-Outcome db change (m db) λ a x. (h.at_state db c a x).0

pub post_movement-Posts :
    (m : Movement) → Posts (post_movement m) (at m.product_id m.store_id m.quantity) Any
post_movement-Posts m = record { at_state = λ db c a x. ((post_movement_lem m db c).1, tt) }

pub increment_batch-Posts : (id : ℕ) (q : ℤ) → Posts (increment_batch id q) unchanged Any
unfolding increment_batch
increment_batch-Posts id q =
    quiet-Posts (increment_batch id q) Any (λ db. ground arith) (λ _ _ _. tt)

pub record_audit-Posts :
    (u : Option ℕ) (t : EntityType) (id : ℕ) (a : AuditAction)
    → Posts (record_audit u t id a) unchanged Any
unfolding record_audit
record_audit-Posts u t id a =
    quiet-Posts (record_audit u t id a) Any (λ db. (refl, refl)) (λ _ _ _. tt)

pub lock_stock_row-Posts : (p s : ℕ) → Posts (lock_stock_row p s) unchanged Any
unfolding lock_stock_row
lock_stock_row-Posts p s = quiet-Posts (lock_stock_row p s) Any (λ db. (refl, refl)) (λ _ _ _. tt)

pub throw_if-Posts : (b : Bool) (e : ErrorCode) → Posts (throw_if b e) unchanged Any
unfolding throw_if
throw_if-Posts b e = quiet-Posts (throw_if b e) Any (λ db. ground arith) (λ _ _ _. tt)

pub at-neg :
    (product store : ℕ) (a b : ℤ) (p s : ℕ)
    → at product store (neg (a +ℤ b)) p s
      ≡ at product store (neg a) p s +ℤ at product store (neg b) p s
at-neg product store a b p s = grind int_laws

pub at-add :
    (product store : ℕ) (a b : ℤ) (p s : ℕ)
    → at product store (a +ℤ b) p s ≡ at product store a p s +ℤ at product store b p s
at-add product store a b p s = grind int_laws

pub at-neg_zero : (product store p s : ℕ) → at product store (neg (pos 0)) p s ≡ pos 0
at-neg_zero product store p s = grind int_laws

-- A guard before a transaction.
pub throw_if-Outcome :
    {A : Type 0} (b : Bool) (e : ErrorCode) (m : Action Db A) (change : Change) (db : Db)
    → Outcome db change (m db)
    → Outcome db change ((throw_if b e >>= λ _. m) db)
unfolding throw_if ◌>>=◌
throw_if-Outcome true e m change db h = refl
throw_if-Outcome false e m change db h = h

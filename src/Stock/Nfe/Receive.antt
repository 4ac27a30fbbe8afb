-- ===== src/Stock/Nfe/Receive.antt =====
-- What the items of an invoice do to the stock when they are received.
use estoque_saas.Base.{
  ℕ, ◌≡◌, refl, sym, ap, Option, none, some, List, [], ◌∷◌, arith, Option-cases, inl, inr, ℤ, pos,
  ◌+ℤ◌, Bool-cases, truthy, ◌&&◌,
}
use estoque_saas.Shared.Transaction.{Action, Result, ok, err, crash, ◌>>=◌, pure, gets, continue}
use estoque_saas.Stock.Rows.{NfeImport, NfeItem, Product, Batch, Movement, EntityType, AuditAction}
use estoque_saas.Stock.Db.{Db, lock_stock_row, create_batch, record_audit, create_movement}
use estoque_saas.Stock.Balance.{post_movement}
use estoque_saas.Stock.Balance.Ledger.{IsConsistent, Change, at, Shifts, Shifts-trans, Shifts-quiet}
use estoque_saas.Stock.Balance.Posts.{
  Posts, Any, unchanged, then-Posts, first-Posts, quiet-Posts, pure-Posts, post_movement-Posts,
  record_audit-Posts, lock_stock_row-Posts,
}
use estoque_saas.Shared.Fixes.{Fixes, fixes, bind-Fixes, pure-Fixes, gets-Fixes}
use estoque_saas.Stock.Nfe.{
  Receipt, Override, product_of, received_batch, receive_product, receive_item, receive_items,
}

-- What the items of an invoice bring into a store, with the products of the tenant.
abbrev pub received_one : ℕ → NfeItem → Option Product → Change
received_one store i none p s = pos 0
received_one store i (some product) p s = at product.id store i.q_com p s

abbrev pub received : ℕ → Db → List NfeItem → Change
received store db [] p s = pos 0
received store db (i ∷ is) p s =
    received_one store i (product_of i db) p s +ℤ received store db is p s

create_batch-Posts : (b : Batch) → Posts (create_batch b) unchanged Any
unfolding create_batch
create_batch-Posts b =
    quiet-Posts (create_batch b) Any (λ db. (ground arith, ground arith)) (λ _ _ _. tt)

received_batch-Posts :
    (store : ℕ) (product : Product) (q : ℤ) (o : Option Override)
    → Posts (received_batch store product q o) unchanged Any
unfolding received_batch
received_batch-Posts store product q none = pure-Posts none Any tt
received_batch-Posts store product q (some o) = elim (Option-cases o.expiry_date) [
  | inl e ↦ rw e (pure-Posts none Any tt)
  | inr (day, e) ↦ rw e (elim (Bool-cases (product.is_perishable && truthy o.batch_number)) [
    | inl both ↦ rw both (
        then-Posts (create_batch _) _ unchanged Any Any (create_batch-Posts _)
          λ _ _. pure-Posts _ Any tt)
    | inr lacks ↦ rw lacks (pure-Posts none Any tt)
  ])
]

receive_product-Posts :
    (r : Receipt) (i : NfeItem) (product : Product)
    → Posts (receive_product r i product) (at product.id r.store i.q_com) Any
unfolding receive_product
receive_product-Posts r i product =
    let change = at product.id r.store i.q_com in
    then-Posts (lock_stock_row _ _) _ change Any Any (lock_stock_row-Posts _ _) λ _ _.
      then-Posts (received_batch _ _ _ _) _ change Any Any (received_batch-Posts _ _ _ _) λ batch _.
        first-Posts (post_movement _) _ change Any Any (post_movement-Posts _)
          λ _ _. record_audit-Posts _ _ _ _

abbrev receive_found : Receipt → NfeItem → Option Product → Action Db (Unit {0})
receive_found r i found = elim found [ none ↦ pure tt | some product ↦ receive_product r i product ]

receive_found-Posts :
    (r : Receipt) (i : NfeItem) (found : Option Product)
    → Posts (receive_found r i found) (received_one r.store i found) Any
receive_found-Posts r i none = pure-Posts tt Any tt
receive_found-Posts r i (some product) = receive_product-Posts r i product

-- The products and the imports of the tenant.
abbrev pub kept_part : Db → List Product × List NfeImport
kept_part db = (db.products, db.nfe_imports)

received_batch-Fixes :
    (store : ℕ) (product : Product) (q : ℤ) (o : Option Override)
    → Fixes kept_part (received_batch store product q o)
unfolding received_batch create_batch ◌>>=◌
received_batch-Fixes store product q none = fixes kept_part _ λ db. refl
received_batch-Fixes store product q (some o) = fixes kept_part _ λ db. ground arith

lock_stock_row-Fixes : (p s : ℕ) → Fixes kept_part (lock_stock_row p s)
unfolding lock_stock_row
lock_stock_row-Fixes p s = fixes kept_part _ λ db. refl

post_movement-Fixes : (m : Movement) → Fixes kept_part (post_movement m)
unfolding post_movement create_movement
post_movement-Fixes m = fixes kept_part _ λ db. refl

record_audit-Fixes :
    (u : Option ℕ) (t : EntityType) (id : ℕ) (a : AuditAction)
    → Fixes kept_part (record_audit u t id a)
unfolding record_audit
record_audit-Fixes u t id a = fixes kept_part _ λ db. refl

receive_product-Fixes :
    (r : Receipt) (i : NfeItem) (product : Product) → Fixes kept_part (receive_product r i product)
unfolding receive_product
receive_product-Fixes r i product =
    bind-Fixes kept_part (lock_stock_row _ _) _ (lock_stock_row-Fixes _ _) λ _.
      bind-Fixes kept_part (received_batch _ _ _ _) _ (received_batch-Fixes _ _ _ _) λ batch.
        bind-Fixes kept_part (post_movement _) _ (post_movement-Fixes _)
          λ _. record_audit-Fixes _ _ _ _

receive_found-Fixes :
    (r : Receipt) (i : NfeItem) (found : Option Product) → Fixes kept_part (receive_found r i found)
receive_found-Fixes r i none = pure-Fixes kept_part tt
receive_found-Fixes r i (some product) = receive_product-Fixes r i product

product_of-products :
    (i : NfeItem) (a b : Db) → b.products ≡ a.products → product_of i b ≡ product_of i a
product_of-products i a b e = grind arith

received-products :
    (store : ℕ) (a b : Db) (is : List NfeItem) (p s : ℕ)
    → b.products ≡ a.products
    → received store b is p s ≡ received store a is p s
received-products store a b [] p s e = refl
received-products store a b (i ∷ is) p s e = rw (product_of-products i a b e) (
    ap (λ z. received_one store i (product_of i a) p s +ℤ z) (received-products store a b is p s e))

-- What the items after the first do, after what the first one did.
rest-Shifts :
    (r : Receipt) (f : Change) (is : List NfeItem) (db : Db) (step : Result (Unit {0}) × Db)
    → (step.0 ≡ ok tt → Shifts db f step.1)
    → step.1.products ≡ db.products
    → ((db' : Db)
        → IsConsistent db'.clock db'.movements
        → (receive_items r is db').0 ≡ ok tt
        → Shifts db' (received r.store db' is) (receive_items r is db').1)
    → (continue (λ _. receive_items r is) step).0 ≡ ok tt
    → Shifts db
        (λ p s. f p s +ℤ received r.store db is p s)
        (continue (λ _. receive_items r is) step).1
unfolding continue
rest-Shifts r f is db (ok tt, db') first same next e =
    let one = first refl in
    Shifts-trans db db' (receive_items r is db').1 f (received r.store db' is) _ one
      (next db' one.consistent e)
      λ p s. ap (λ z. f p s +ℤ z) (sym (received-products r.store db db' is p s same))
rest-Shifts r f is db (err c, db') first same next e = cc
rest-Shifts r f is db (crash, db') first same next e = cc

pub receive_items-Shifts :
    (r : Receipt) (is : List NfeItem) (db : Db)
    → IsConsistent db.clock db.movements
    → (receive_items r is db).0 ≡ ok tt
    → Shifts db (received r.store db is) (receive_items r is db).1
unfolding receive_items receive_item ◌>>=◌ pure gets continue
receive_items-Shifts r [] db c e = Shifts-quiet db db _ c refl refl (λ _ _. refl)
receive_items-Shifts r (i ∷ is) db c e =
    let found = product_of i db in
    rest-Shifts r (received_one r.store i found) is db (receive_found r i found db)
      (λ x. ((receive_found-Posts r i found).at_state db c tt x).0)
      (ap (λ x. x.0) ((receive_found-Fixes r i found).at_state db))
      (λ db' c' e'. receive_items-Shifts r is db' c' e') e

pub receive_items-Fixes : (r : Receipt) (is : List NfeItem) → Fixes kept_part (receive_items r is)
unfolding receive_items receive_item
receive_items-Fixes r [] = pure-Fixes kept_part tt
receive_items-Fixes r (i ∷ is) =
    bind-Fixes kept_part _ _
      (bind-Fixes kept_part _ _ (gets-Fixes kept_part (product_of i))
        λ found. receive_found-Fixes r i found)
      λ _. receive_items-Fixes r is

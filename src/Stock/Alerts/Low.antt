-- ===== src/Stock/Alerts/Low.antt =====
-- The list of low products, against what is asked of each product alone.
use estoque_saas.Base.{
  ℕ, ◌≡◌, refl, ◌∙◌, ap, inl, inr, Bool, true, false, ◌&&◌, ◌||◌, Option, none, some, List, [], ◌∷◌,
  map, arith, ℤ, ltb_ℤ, ◌==◌, if◌then◌else◌, or_else, is_some, any, select, mem_nat, All, ==_iff,
  Bool-cases,
}
use estoque_saas.Stock.Rows.{Product}
use estoque_saas.Stock.Db.{Db, is_live}
use estoque_saas.Stock.Balance.{current_stock}
use estoque_saas.Stock.Alerts.{
  StoreSetting, LowStockProduct, stock_of, stores_in, store_low, store_low_at, real_overrides,
  override_at, store_alert, low_product, push, alert_of, alerts_of, list_low_stock_alerts,
}
use estoque_saas.Stock.Alerts.Stores.{
  is_below, stock_of-current_stock, store_low-any_in, any_passes-stores_in,
}

-- Whether a product is low, each of its stocks being read alone: in one store its stock there is below
-- the store's minimum or, where the store has none, the product's; over all stores the whole stock is
-- below the product's minimum, or the stock of some store is below that store's.
abbrev pub is_low : Option ℕ → Db → List StoreSetting → Product → Bool
is_low (some store) db os p =
    ltb_ℤ (current_stock p.id (some store) db.movements)
      (or_else (override_at (some store) p.id os) p.min_stock_global)
is_low none db os p =
    ltb_ℤ (current_stock p.id none db.movements) p.min_stock_global || any (is_below db p.id) os

-- A setting that puts a product below its minimum is real.
is_below-real :
    (db : Db) (ids : List ℕ) (p : ℕ) (o : StoreSetting)
    → mem_nat p ids ≡ true
    → is_below db p o ≡ true
    → (mem_nat o.product_id ids && is_some o.min_stock_override) ≡ true
is_below-real db ids p o h b = elim (Bool-cases (o.product_id == p)) [
  | inr n ↦ cc (rw n at b)
  | inl y ↦ elim (Bool-cases (is_some o.min_stock_override)) [
    | inr n ↦ cc (rw n at (rw y at b))
    | inl z ↦ rw (z, (==_iff o.product_id p).0 y) (rw h refl)
  ]
]

any-real_overrides :
    (db : Db) (ids : List ℕ) (p : ℕ) (os : List StoreSetting)
    → mem_nat p ids ≡ true
    → any (is_below db p) (real_overrides ids os) ≡ any (is_below db p) os
any-real_overrides db ids p [] h = refl
any-real_overrides db ids p (o ∷ os) h =
    let rest = any-real_overrides db ids p os h in
    elim (Bool-cases (is_below db p o)) [
      | inl y ↦ rw (is_below-real db ids p o h y) (rw y refl)
      | inr n ↦ elim (Bool-cases (mem_nat o.product_id ids && is_some o.min_stock_override)) [
        | inl k ↦ rw k (rw n rest)
        | inr k ↦ rw k (rw n rest)
      ]
    ]

is_some-alert :
    (t : Bool) (a : LowStockProduct) (p : Product) (low : Option (ℤ × ℤ))
    → is_some (if t then some a else store_alert p low) ≡ (t || is_some low)
is_some-alert true a p low = refl
is_some-alert false a p none = refl
is_some-alert false a p (some x) = refl

or_false : (a : Bool) → (a || false) ≡ a
or_false true = refl
or_false false = refl

alert_of-is_low :
    (store : Option ℕ) (db : Db) (ids : List ℕ) (os : List StoreSetting) (p : Product)
    → mem_nat p.id ids ≡ true
    → is_some (alert_of store db ids os p) ≡ is_low store db os p
unfolding alert_of
alert_of-is_low (some store) db ids os p h =
    let min = or_else (override_at (some store) p.id os) p.min_stock_global in
    is_some-alert _ _ p none
    ∙ (or_false (ltb_ℤ (stock_of db (some store) ids p.id) min)
        ∙ ap (λ (c : ℤ). ltb_ℤ c min) (stock_of-current_stock db (some store) ids p.id h))
alert_of-is_low none db ids os p h =
    let real = real_overrides ids os in
    is_some-alert _ _ p (store_low db p.id real (stores_in [] real))
    ∙ (ap (λ (c : ℤ). ltb_ℤ c p.min_stock_global || is_some (store_low_at none db ids os p.id))
          (stock_of-current_stock db none ids p.id h)
        ∙ ap (λ (b : Bool). ltb_ℤ (current_stock p.id none db.movements) p.min_stock_global || b)
            (store_low-any_in db p.id real (stores_in [] real)
              ∙ (any_passes-stores_in (is_below db p.id) real
                  ∙ any-real_overrides db ids p.id os h)))

abbrev pub names : List LowStockProduct → List ℕ
names = map λ (a : LowStockProduct). a.id

abbrev pub product_ids : List Product → List ℕ
product_ids = map λ (p : Product). p.id

push-names :
    (t : Bool) (p : Product) (c m : ℤ) (low : Option (ℤ × ℤ)) (rest : List LowStockProduct)
    → names (push (if t then some (low_product p c m) else store_alert p low) rest) ≡ (
        if is_some (if t then some (low_product p c m) else store_alert p low)
        then p.id ∷ names rest
        else names rest)
push-names true p c m low rest = refl
push-names false p c m none rest = refl
push-names false p c m (some x) rest = refl

alert-id :
    (store : Option ℕ) (db : Db) (ids : List ℕ) (os : List StoreSetting) (p : Product)
    (rest : List LowStockProduct)
    → names (push (alert_of store db ids os p) rest)
      ≡ (if is_some (alert_of store db ids os p) then p.id ∷ names rest else names rest)
unfolding alert_of
alert-id store db ids os p rest =
    let min = or_else (override_at store p.id os) p.min_stock_global in
    push-names (ltb_ℤ (stock_of db store ids p.id) min) p (stock_of db store ids p.id) min
      (store_low_at store db ids os p.id) rest

alerts_of-is_low :
    (store : Option ℕ) (db : Db) (ids : List ℕ) (os : List StoreSetting) (ps : List Product)
    → All (λ p. mem_nat p.id ids ≡ true) ps
    → names (alerts_of store db ids os ps) ≡ product_ids (select (is_low store db os) ps)
unfolding alerts_of
alerts_of-is_low store db ids os [] h = refl
alerts_of-is_low store db ids os (p ∷ ps) h =
    alert-id store db ids os p (alerts_of store db ids os ps)
    ∙ rw (alert_of-is_low store db ids os p h.0) (
        rw (alerts_of-is_low store db ids os ps h.1)
          (elim (Bool-cases (is_low store db os p)) [ inl e ↦ rw e refl | inr e ↦ rw e refl ]))

AllListed-cons :
    (q : ℕ) (ids : List ℕ) (ps : List Product)
    → All (λ p. mem_nat p.id ids ≡ true) ps
    → All (λ p. mem_nat p.id (q ∷ ids) ≡ true) ps
AllListed-cons q ids [] h = tt
AllListed-cons q ids (p ∷ ps) h = (ground arith, AllListed-cons q ids ps h.1)

AllListed : (ps : List Product) → All (λ p. mem_nat p.id (product_ids ps) ≡ true) ps
AllListed [] = tt
AllListed (p ∷ ps) = (ground arith, AllListed-cons p.id (product_ids ps) ps (AllListed ps))

-- The list of low products, made from three batched queries, names exactly the products that are low
-- when each is looked at alone, in their order: in one store, those whose stock there is below the
-- store's minimum or, where the store has none, below their own; over all stores, those whose whole
-- stock is below their own minimum or whose stock in some store is below that store's.
pub list_low_stock_alerts_lem :
    (store : Option ℕ) (db : Db) (os : List StoreSetting)
    → names (list_low_stock_alerts store db os)
      ≡ product_ids (select (is_low store db os) (select is_live db.products))
unfolding list_low_stock_alerts
list_low_stock_alerts_lem store db os =
    let ps = select is_live db.products in
    alerts_of-is_low store db (product_ids ps) os ps (AllListed ps)

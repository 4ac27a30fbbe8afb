-- ===== src/Stock/Alerts/Stores.antt =====
-- The settings of the stores, visited store by store.
use estoque_saas.Base.{
  ℕ, ◌≡◌, ◌⊎◌, refl, sym, ◌∙◌, ap, inl, inr, Bool, true, false, ◌&&◌, ◌||◌, Option, none, some,
  List, [], ◌∷◌, map, arith, ℤ, pos, ltb_ℤ, ◌==◌, if◌then◌else◌, or_else, is_some, any, find,
  select, mem_nat, All, ==_iff, Bool-cases,
}
use estoque_saas.Stock.Db.{Db}
use estoque_saas.Stock.Balance.{current_stock}
use estoque_saas.Stock.Balance.Batched.{stock_in-get_current_stock_for_products}
use estoque_saas.Stock.Alerts.{
  StoreSetting, stock_of, stores_in, below_override, lowness, first_of, store_low,
}

-- A setting puts a product below its minimum in the setting's store.
abbrev pub is_below : Db → ℕ → StoreSetting → Bool
is_below db p o =
    (o.product_id == p)
    && (if is_some o.min_stock_override
        then ltb_ℤ (current_stock p (some o.store_id) db.movements)
            (or_else o.min_stock_override (pos 0))
        else false)

abbrev ids_of : List StoreSetting → List ℕ
ids_of = map (λ (o : StoreSetting). o.product_id)

abbrev AllAsked : List ℕ → List StoreSetting → Type 0
AllAsked ids = All (λ o. mem_nat o.product_id ids ≡ true)

AllAsked-cons :
    (q : ℕ) (ids : List ℕ) (os : List StoreSetting) → AllAsked ids os → AllAsked (q ∷ ids) os
AllAsked-cons q ids [] h = tt
AllAsked-cons q ids (o ∷ os) h = (ground arith, AllAsked-cons q ids os h.1)

AllAsked-ids_of : (os : List StoreSetting) → AllAsked (ids_of os) os
AllAsked-ids_of [] = tt
AllAsked-ids_of (o ∷ os) =
    (ground arith, AllAsked-cons o.product_id (ids_of os) os (AllAsked-ids_of os))

pub stock_of-current_stock :
    (db : Db) (store : Option ℕ) (ids : List ℕ) (p : ℕ)
    → mem_nat p ids ≡ true
    → stock_of db store ids p ≡ current_stock p store db.movements
stock_of-current_stock db store ids p h =
    stock_in-get_current_stock_for_products ids store db.movements p h

-- The batched test is the single one.
below_override-is_below :
    (db : Db) (ids : List ℕ) (p store : ℕ) (o : StoreSetting)
    → mem_nat o.product_id ids ≡ true
    → o.store_id ≡ store
    → below_override db ids p store o ≡ is_below db p o
below_override-is_below db ids p store o h e = elim (Bool-cases (o.product_id == p)) [
  | inr n ↦ rw n refl
  | inl y ↦
      let same : o.product_id ≡ p = (==_iff o.product_id p).0 y in
      rw (y, stock_of-current_stock db (some store) ids p (rw same at h), e) refl
]

find-below_override :
    (db : Db) (ids : List ℕ) (p store : ℕ) (os : List StoreSetting)
    → AllAsked ids (select (λ o. o.store_id == store) os)
    → is_some (find (below_override db ids p store) (select (λ o. o.store_id == store) os))
      ≡ any (λ o. (o.store_id == store) && is_below db p o) os
find-below_override db ids p store [] h = refl
find-below_override db ids p store (o ∷ os) h = elim (Bool-cases (o.store_id == store)) [
  | inr n ↦ rw n (find-below_override db ids p store os (rw n at h))
  | inl y ↦
      let asked = rw y at h in
      let same = below_override-is_below db ids p store o asked.0 ((==_iff o.store_id store).0 y) in
      rw (y, same)
        (elim (Bool-cases (is_below db p o)) [
          | inl b ↦ rw b refl
          | inr b ↦ rw b (find-below_override db ids p store os asked.1)
        ])
]

-- Some store of a list has a setting that the product is below.
abbrev pub any_in : Db → ℕ → List StoreSetting → List ℕ → Bool
any_in db p os = any (λ s. any (λ o. (o.store_id == s) && is_below db p o) os)

is_some-first_of : (a b : Option (ℤ × ℤ)) → is_some (first_of a b) ≡ (is_some a || is_some b)
is_some-first_of none b = refl
is_some-first_of (some x) b = refl

is_some-lowness : (c : ℤ) (o : Option StoreSetting) → is_some (lowness c o) ≡ is_some o
is_some-lowness c none = refl
is_some-lowness c (some o) = refl

or_if : (a b : Bool) → (a || b) ≡ (if a then true else b)
or_if true b = refl
or_if false b = refl

pub store_low-any_in :
    (db : Db) (p : ℕ) (os : List StoreSetting) (stores : List ℕ)
    → is_some (store_low db p os stores) ≡ any_in db p os stores
unfolding store_low
store_low-any_in db p os [] = refl
store_low-any_in db p os (s ∷ stores) =
    let here = select (λ o. o.store_id == s) os in
    is_some-first_of _ (store_low db p os stores)
    ∙ (ap (λ (b : Bool). b || is_some (store_low db p os stores))
          (is_some-lowness _ (find (below_override db (ids_of here) p s) here)
            ∙ find-below_override db (ids_of here) p s os (AllAsked-ids_of here))
        ∙ (ap (λ (b : Bool). any (λ o. (o.store_id == s) && is_below db p o) os || b)
              (store_low-any_in db p os stores)
            ∙ or_if (any (λ o. (o.store_id == s) && is_below db p o) os) (any_in db p os stores)))

module _ (g : StoreSetting → Bool) where
  -- A setting of the store passes the test.
  abbrev pub passes_in : List StoreSetting → ℕ → Bool
  passes_in os s = any (λ o. (o.store_id == s) && g o) os

  abbrev AllIn : (ℕ → Bool) → List StoreSetting → Type 0
  AllIn a = All (λ o. g o ≡ true → a o.store_id ≡ true)

  AllIn-cons :
      (x : StoreSetting) (os l : List StoreSetting)
      → AllIn (passes_in os) l
      → AllIn (passes_in (x ∷ os)) l
  AllIn-cons x os [] h = tt
  AllIn-cons x os (o ∷ l) h = (λ e. ground (arith, h.0 e), AllIn-cons x os l h.1)

  AllIn-passes_in : (os : List StoreSetting) → AllIn (passes_in os) os
  AllIn-passes_in [] = tt
  AllIn-passes_in (o ∷ os) = (λ e. ground arith, AllIn-cons o os os (AllIn-passes_in os))

  any_of_mem :
      (a : ℕ → Bool) (s : ℕ) (xs : List ℕ) → mem_nat s xs ≡ true → a s ≡ true → any a xs ≡ true
  any_of_mem a s [] m h = cc
  any_of_mem a s (x ∷ xs) m h = elim (Bool-cases (s == x)) [
    | inl y ↦ rw (rw ((==_iff s x).0 y) at h) refl
    | inr n ↦ elim (Bool-cases (a x)) [
      | inl b ↦ rw b refl
      | inr b ↦ rw b (any_of_mem a s xs (rw n at m) h)
    ]
  ]

  rest_passes :
      (a : ℕ → Bool) (o : StoreSetting) (l : List StoreSetting)
      → a o.store_id ≡ false
      → (g o ≡ true → a o.store_id ≡ true)
      → any g (o ∷ l) ≡ true
      → any g l ≡ true
  rest_passes a o l n h e = elim (Bool-cases (g o)) [ inl y ↦ cc (h y) | inr m ↦ rw m at e ]

  unpassed :
      (a : ℕ → Bool) (s : ℕ) (seen : List ℕ) (b : Bool)
      → a s ≡ false
      → (b ≡ true) ⊎ (any a (s ∷ seen) ≡ true)
      → (b ≡ true) ⊎ (any a seen ≡ true)
  unpassed a s seen b n (inl x) = inl x
  unpassed a s seen b n (inr x) = inr (rw n at x)

  any-stores_in :
      (a : ℕ → Bool) (seen : List ℕ) (l : List StoreSetting)
      → AllIn a l
      → any g l ≡ true
      → (any a (stores_in seen l) ≡ true) ⊎ (any a seen ≡ true)
  unfolding stores_in
  any-stores_in a seen [] h e = cc
  any-stores_in a seen (o ∷ l) h e = elim (Bool-cases (mem_nat o.store_id seen)) [
    | inl old ↦ rw old (elim (Bool-cases (g o)) [
      | inl y ↦ inr (any_of_mem a o.store_id seen old (h.0 y))
      | inr n ↦ any-stores_in a seen l h.1 (rw n at e)
    ])
    | inr new ↦ rw new (elim (Bool-cases (a o.store_id)) [
      | inl y ↦ inl (rw y refl)
      | inr n ↦ rw n (
          unpassed a (o.store_id) seen _ n
            (any-stores_in a (o.store_id ∷ seen) l h.1 (rest_passes a o l n h.0 e)))
    ])
  ]

  passes-any : (os : List StoreSetting) (s : ℕ) → passes_in os s ≡ true → any g os ≡ true
  passes-any [] s h = cc
  passes-any (o ∷ os) s h = ground (arith, passes-any os s)

  any_passes :
      (os : List StoreSetting) (xs : List ℕ) → any (passes_in os) xs ≡ true → any g os ≡ true
  any_passes os [] h = cc
  any_passes os (x ∷ xs) h = elim (Bool-cases (passes_in os x)) [
    | inl y ↦ passes-any os x y
    | inr n ↦ any_passes os xs (rw n at h)
  ]

  -- Visiting the stores of the settings one by one finds what looking at every setting finds.
  pub any_passes-stores_in :
      (os : List StoreSetting) → any (passes_in os) (stores_in [] os) ≡ any g os
  any_passes-stores_in os = elim (Bool-cases (any g os)) [
    | inl y ↦ elim (any-stores_in (passes_in os) [] os (AllIn-passes_in os) y) [
      | inl x ↦ x ∙ sym y
      | inr x ↦ cc
    ]
    | inr n ↦ elim (Bool-cases (any (passes_in os) (stores_in [] os))) [
      | inl x ↦ cc (any_passes os (stores_in [] os) x)
      | inr x ↦ x ∙ sym n
    ]
  ]

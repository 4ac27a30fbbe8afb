-- ===== src/Stock/Nfe/Bulk/Counts.antt =====
-- How many products a bulk creation makes, and how many items it links.
use estoque_saas.Base.{
  ℕ, zero, suc, ◌+◌, ◌≤◌, ◌<◌, ◌≡◌, ◌⊎◌, ◌||◌, ltb, refl, sym, ap, ◌∙◌, inl, inr, Bool, true, false,
  not, ◌&&◌, Option, none, some, List, [], ◌∷◌, ◌++◌, map, arith, Text, text_eq_iff, is_some,
  length, All, All-map, Bool-cases, if◌then◌else◌, ==_refl,
}
use estoque_saas.Shared.Errors.{plan_limit_reached}
use estoque_saas.Shared.PlanLimits.{PlanLimits, assert_within_plan_limit, limit_of}
use estoque_saas.Shared.Transaction.{ok, err, ◌>>=◌, pure, gets, modify, lift, continue}
use estoque_saas.Stock.Rows.{Product, NfeItem, product, create}
use estoque_saas.Stock.Db.{
  Db, record_audit, product_count, is_sku_taken, is_grounded, is_product, refers, supplier_ids,
  create_product_row,
}
use estoque_saas.Catalog.Csv.{trim}
use estoque_saas.Catalog.Products.{filled}
use estoque_saas.Stock.Nfe.Bulk.{
  ItemKey, Entry, by_ean, by_sku, by_item, key_eq, key_of, existing_product, entry_of, has_key,
  to_create, bulk_product, create_each, id_of, product_for, link_entry, link_each, check_room,
}

abbrev pub keys : List (ItemKey × NfeItem) → List ItemKey
keys [] = []
keys ((k, i) ∷ rest) = k ∷ keys rest

abbrev pub made_keys : List (ItemKey × ℕ) → List ItemKey
made_keys [] = []
made_keys ((k, i) ∷ rest) = k ∷ made_keys rest

free_or_none :
    (sku : Option Text) (ps : List Product)
    → is_sku_taken (if is_sku_taken sku ps then none else sku) ps ≡ false
free_or_none sku ps = elim (Bool-cases (is_sku_taken sku ps)) [ inl e ↦ rw e refl | inr e ↦ rw e e ]

-- The SKU of the row that is created is free.
bulk_product-free :
    (supplier : Option ℕ) (i : NfeItem) (db : Db)
    → is_sku_taken (bulk_product supplier i db).sku db.products ≡ false
bulk_product-free supplier i db = free_or_none (filled (trim i.c_prod)) db.products

bulk_product-grounded :
    (supplier : Option ℕ) (i : NfeItem) (db : Db)
    → refers (supplier_ids db) supplier ≡ true
    → is_grounded (bulk_product supplier i db) db ≡ true
unfolding is_grounded
bulk_product-grounded supplier i db h = h

-- There are as many products as keys.
pub length-made_keys :
    (made : List (ItemKey × ℕ)) (chosen : List (ItemKey × NfeItem))
    → made_keys made ≡ keys chosen
    → length made ≡ length chosen
length-made_keys [] [] e = refl
length-made_keys [] ((k, i) ∷ rest) e = cc
length-made_keys ((k, i) ∷ rest) [] e = cc
length-made_keys ((k, id) ∷ rest) ((j, i) ∷ others) e =
    ap (λ (n : ℕ). suc n) (length-made_keys rest others (cc e))

pub length-map {ℓ κ} :
    {A : Type ℓ} {B : Type κ} (f : A → B) (xs : List A) → length (map f xs) ≡ length xs
length-map f [] = refl
length-map f (x ∷ xs) = ap (λ (n : ℕ). suc n) (length-map f xs)

-- Each of the products is created, whatever there is.
pub create_each_lem :
    (user : ℕ) (supplier : Option ℕ) (chosen : List (ItemKey × NfeItem)) (db : Db)
    → refers (supplier_ids db) supplier ≡ true
    → (made : List (ItemKey × ℕ)) × ((create_each user supplier chosen db).0 ≡ ok made)
      × (made_keys made ≡ keys chosen)
      × (product_count (create_each user supplier chosen db).1 ≡ product_count db + length chosen)
      × All
          (λ (m : ItemKey × ℕ). is_product m.1 (create_each user supplier chosen db).1 ≡ true)
          made
      × ((p : ℕ)
          → is_product p db ≡ true
          → is_product p (create_each user supplier chosen db).1 ≡ true)
unfolding create_each ◌>>=◌ continue gets pure record_audit create_product_row
create_each_lem user supplier [] db there = ([], refl, refl, omega arith, tt, λ p h. h)
create_each_lem user supplier ((k, i) ∷ rest) db there =
    let fine : (is_sku_taken (bulk_product supplier i db).sku db.products
          || not (is_grounded (bulk_product supplier i db) db))
        ≡ false =
      rw (bulk_product-free supplier i db) (rw (bulk_product-grounded supplier i db there) refl) in
    let grown : Db = record db {
      products = record (bulk_product supplier i db) { id = db.next_id } ∷ db.products;
      next_id = suc db.next_id;
      audits =
          record {
            user_id = some user;
            entity_type = product;
            entity_id = db.next_id;
            action = create;
          }
          ∷ db.audits;
    } in
    let (made, answered, same, counted, known, kept) =
      create_each_lem user supplier rest grown there in
    let last : (create_each user supplier ((k, i) ∷ rest) db).1
        ≡ (create_each user supplier rest grown).1 =
      rw fine (rw answered refl) in
    (
      (k, db.next_id) ∷ made,
      rw fine (rw answered refl),
      ap (λ (ks : List ItemKey). k ∷ ks) same,
      rw fine (rw answered (omega (arith, counted))),
      (
        ap (is_product db.next_id) last ∙ kept db.next_id (rw (==_refl db.next_id) refl),
        All-map _ _ made (λ m e. ap (is_product m.1) last ∙ e) known,
      ),
      λ p h. ap (is_product p) last ∙ kept p (ground (arith, h)),
    )

-- Every item has a product, there already or just made.
abbrev pub AllFound : List (ItemKey × ℕ) → List Entry → Type 0
AllFound made = All λ e. is_some (product_for e made) ≡ true

link_entry_lem :
    (e : Entry) (o : Option ℕ) (db : Db)
    → (after : Db) × (link_entry e o db ≡ (ok tt, after)) × (after.products ≡ db.products)
unfolding link_entry pure modify
link_entry_lem e none db = (_, refl, refl)
link_entry_lem e (some id) db = (_, refl, refl)

pub link_each_lem :
    (made : List (ItemKey × ℕ)) (es : List Entry) (db : Db)
    → AllFound made es
    → ((link_each made es db).0 ≡ ok (length es))
      × ((link_each made es db).1.products ≡ db.products)
unfolding link_each ◌>>=◌ continue pure
link_each_lem made [] db h = (refl, refl)
link_each_lem made (e ∷ es) db h =
    let (after, linked, same) = link_entry_lem e (product_for e made) db in
    let rest = link_each_lem made es after h.1 in
    (rw linked (rw (rest.0, h.0) refl), rw linked (rw rest.0 (rest.1 ∙ same)))

-- A key is among those made.
abbrev is_among : ItemKey → List ItemKey → Bool
is_among k [] = false
is_among k (j ∷ js) = if key_eq j k then true else is_among k js

id_of-made_keys :
    (k : ItemKey) (made : List (ItemKey × ℕ)) → is_some (id_of k made) ≡ is_among k (made_keys made)
id_of-made_keys k [] = refl
id_of-made_keys k ((j, id) ∷ rest) = elim (Bool-cases (key_eq j k)) [
  | inl e ↦ rw e refl
  | inr e ↦ rw e (id_of-made_keys k rest)
]

has_key-keys : (k : ItemKey) (l : List (ItemKey × NfeItem)) → has_key k l ≡ is_among k (keys l)
has_key-keys k [] = refl
has_key-keys k ((j, i) ∷ rest) = elim (Bool-cases (key_eq j k)) [
  | inl e ↦ rw e refl
  | inr e ↦ rw e (has_key-keys k rest)
]

pub key_eq_refl : (k : ItemKey) → key_eq k k ≡ true
key_eq_refl (by_ean a) = (text_eq_iff a a).1 refl
key_eq_refl (by_sku a) = (text_eq_iff a a).1 refl
key_eq_refl (by_item n) = ground arith

has_key-append :
    (k : ItemKey) (l : List (ItemKey × NfeItem)) (x : ItemKey × NfeItem)
    → has_key k l ≡ true
    → has_key k (l ++ (x ∷ [])) ≡ true
has_key-append k [] x h = cc
has_key-append k ((j, i) ∷ rest) x h = elim (Bool-cases (key_eq j k)) [
  | inl e ↦ rw e refl
  | inr e ↦ rw e (has_key-append k rest x (rw e at h))
]

has_key_last :
    (k : ItemKey) (l : List (ItemKey × NfeItem)) (i : NfeItem)
    → has_key k (l ++ ((k, i) ∷ [])) ≡ true
has_key_last k [] i = rw (key_eq_refl k) refl
has_key_last k ((j, x) ∷ rest) i = elim (Bool-cases (key_eq j k)) [
  | inl e ↦ rw e refl
  | inr e ↦ rw e (has_key_last k rest i)
]

or_right : (a b : Bool) → b ≡ true → (a || b) ≡ true
or_right true b h = refl
or_right false b h = h

module _ (db : Db) where
  abbrev step : List (ItemKey × NfeItem) → NfeItem → List (ItemKey × NfeItem)
  step chosen i =
      if not (is_some (existing_product i db)) && not (has_key (key_of i) chosen)
      then chosen ++ ((key_of i, i) ∷ [])
      else chosen

  has_key-step :
      (k : ItemKey) (chosen : List (ItemKey × NfeItem)) (i : NfeItem)
      → has_key k chosen ≡ true
      → has_key k (step chosen i) ≡ true
  has_key-step k chosen i h =
      elim (Bool-cases (not (is_some (existing_product i db)) && not (has_key (key_of i) chosen))) [
        | inl e ↦ rw e (has_key-append k chosen (key_of i, i) h)
        | inr e ↦ rw e h
      ]

  has_key-to_create :
      (k : ItemKey) (chosen : List (ItemKey × NfeItem)) (is : List NfeItem)
      → has_key k chosen ≡ true
      → has_key k (to_create db chosen is) ≡ true
  unfolding to_create
  has_key-to_create k chosen [] h = h
  has_key-to_create k chosen (i ∷ is) h =
      has_key-to_create k (step chosen i) is (has_key-step k chosen i h)

  -- An item has a product, or its key is among those to create.
  abbrev pub covered : List (ItemKey × NfeItem) → NfeItem → Bool
  covered chosen i = is_some (existing_product i db) || has_key (key_of i) chosen

  covered-step :
      (chosen : List (ItemKey × NfeItem)) (i : NfeItem)
      → (is_some (existing_product i db) ≡ true) ⊎ (has_key (key_of i) (step chosen i) ≡ true)
  covered-step chosen i = elim (Bool-cases (is_some (existing_product i db))) [
    | inl e ↦ inl e
    | inr e ↦ rw e (elim (Bool-cases (has_key (key_of i) chosen)) [
      | inl k ↦ rw k (inr k)
      | inr k ↦ rw k (inr (has_key_last (key_of i) chosen i))
    ])
  ]

  pub to_create-covered :
      (chosen : List (ItemKey × NfeItem)) (is : List NfeItem)
      → All (λ i. covered (to_create db chosen is) i ≡ true) is
  unfolding to_create
  to_create-covered chosen [] = tt
  to_create-covered chosen (i ∷ is) = (
    elim (covered-step chosen i) [
      | inl e ↦ rw e refl
      | inr e ↦ or_right _ _ (has_key-to_create (key_of i) (step chosen i) is e)
    ],
    to_create-covered (step chosen i) is,
  )

  -- What is covered is found among the products that are made.
  pub found-covered :
      (chosen : List (ItemKey × NfeItem)) (made : List (ItemKey × ℕ)) (is : List NfeItem)
      → made_keys made ≡ keys chosen
      → All (λ i. covered chosen i ≡ true) is
      → AllFound made (map (entry_of db) is)
  found-covered chosen made [] e h = tt
  found-covered chosen made (i ∷ is) e h = (
    elim (Bool-cases (is_some (existing_product i db))) [
      | inl x ↦ rw x x
      | inr x ↦ rw x (
          id_of-made_keys (key_of i) made
          ∙ (ap (is_among (key_of i)) e ∙ (sym (has_key-keys (key_of i) chosen) ∙ rw x at h.0)))
    ],
    found-covered chosen made is e h.1,
  )

ltb-false : (a b : ℕ) → b ≤ a → ltb a b ≡ false
ltb-false a b h = ground arith

pub check_room_lem :
    (limits : PlanLimits) (n : ℕ) (db : Db)
    → ((0 < n → product_count db + n ≤ limits.max_products) → check_room limits n db ≡ (ok tt, db))
      × (0 < n
          → limits.max_products < product_count db + n
          → check_room limits n db ≡ (err plan_limit_reached, db))
unfolding check_room ◌>>=◌ continue gets lift pure assert_within_plan_limit limit_of
check_room_lem limits zero db = (λ h. refl, λ h. absurd (omega arith))
check_room_lem limits (suc n) db = (
  λ h.
      let l : ltb limits.max_products (product_count db + suc n) ≡ false =
        ltb-false _ _ (h (omega arith)) in
      rw l refl,
  λ z h.
      let l : ltb limits.max_products (product_count db + suc n) ≡ true = ground arith in rw l refl,
)

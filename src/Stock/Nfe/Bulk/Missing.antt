-- ===== src/Stock/Nfe/Bulk/Missing.antt =====
-- The keys of which a bulk creation makes a product.
use estoque_saas.Base.{
  ℕ, suc, ◌≡◌, ◌≢◌, refl, sym, ap, ◌∙◌, inl, inr, Bool, true, false, not, ◌&&◌, Option, none, some,
  List, [], ◌∷◌, ◌++◌, arith, is_some, All, All-map, Some, Some-map, Bool-cases, Text, text_eq_iff,
  if◌then◌else◌, length, truthy, or_else, find, any, opt_text_eq,
}
use estoque_saas.Stock.Rows.{NfeItem, Product}
use estoque_saas.Stock.Db.{Db, is_live}
use estoque_saas.Stock.Nfe.Reading.{match_product, match_id}
use estoque_saas.Catalog.Csv.{trim}
use estoque_saas.Stock.Nfe.Bulk.{
  ItemKey, by_ean, by_sku, by_item, key_without_ean, key_eq, key_of, existing_product, has_key,
  to_create,
}
use estoque_saas.Stock.Nfe.Bulk.Counts.{keys, key_eq_refl, to_create-covered}

-- No key stands twice.
abbrev pub AreDifferent : List ItemKey → Type 0
AreDifferent [] = Unit
AreDifferent (k ∷ ks) = All (λ (j : ItemKey). j ≢ k) ks × AreDifferent ks

-- What tells the items of an invoice apart: the bar code (EAN), or else the trimmed code of the
-- supplier, or else the item itself.
abbrev told_by : Option Text → Text → ℕ → ItemKey
told_by (some (c ∷ cs)) code id = by_ean (c ∷ cs)
told_by (some []) (c ∷ cs) id = by_sku (c ∷ cs)
told_by (some []) [] id = by_item id
told_by none (c ∷ cs) id = by_sku (c ∷ cs)
told_by none [] id = by_item id

abbrev pub key_as : NfeItem → ItemKey
key_as i = told_by i.c_ean (trim i.c_prod) i.id

abbrev by_code : Text → List Product → Bool
by_code [] ps = false
by_code (c ∷ cs) ps =
    any (λ p. opt_text_eq p.sku (some (c ∷ cs)) && (not (is_some p.barcode) && is_live p)) ps

-- Whether an item has a product that is not deleted: by its bar code, or, if it has none, by its code,
-- which then is the SKU of a product without a bar code.
abbrev known_by : Option Text → Text → List Product → Bool
known_by (some (c ∷ cs)) code ps = any (λ p. opt_text_eq p.barcode (some (c ∷ cs)) && is_live p) ps
known_by (some []) code ps = by_code code ps
known_by none code ps = by_code code ps

abbrev pub has_product : Db → NfeItem → Bool
has_product db i = known_by i.c_ean (trim i.c_prod) db.products

-- The keys of the items that have no product, each once.
abbrev pub AreMissing : Db → List NfeItem → List ItemKey → Type 0
AreMissing db items ks =
    AreDifferent ks
    × All (λ (i : NfeItem). has_product db i ≡ false → Some (λ (k : ItemKey). k ≡ key_as i) ks)
        items
    × All
        (λ (k : ItemKey). Some (λ (i : NfeItem). (has_product db i ≡ false) × (key_as i ≡ k)) items)
        ks

told_by-key_of :
    (ean : Option Text) (code : Text) (id : ℕ)
    → (if truthy ean then by_ean (or_else ean []) else key_without_ean code id)
      ≡ told_by ean code id
told_by-key_of (some (c ∷ cs)) code id = refl
told_by-key_of (some []) (c ∷ cs) id = refl
told_by-key_of (some []) [] id = refl
told_by-key_of none (c ∷ cs) id = refl
told_by-key_of none [] id = refl

key_of-key_as : (i : NfeItem) → key_of i ≡ key_as i
key_of-key_as i = told_by-key_of i.c_ean (trim i.c_prod) i.id

is_some-find :
    (test : Product → Bool) (ps : List Product) → is_some (match_id (find test ps)) ≡ any test ps
is_some-find test [] = refl
is_some-find test (p ∷ ps) = elim (Bool-cases (test p)) [
  | inl e ↦ rw e refl
  | inr e ↦ rw e (is_some-find test ps)
]

known_by-existing :
    (ean : Option Text) (code : Text) (db : Db)
    → is_some (
        if truthy ean
        then match_id (match_product ean db)
        else if truthy (some code)
        then match_id (
            find
              (λ p. opt_text_eq p.sku (some code) && (not (is_some p.barcode) && is_live p))
              db.products)
        else none)
      ≡ known_by ean code db.products
known_by-existing (some (c ∷ cs)) code db = is_some-find _ db.products
known_by-existing (some []) (c ∷ cs) db = is_some-find _ db.products
known_by-existing (some []) [] db = refl
known_by-existing none (c ∷ cs) db = is_some-find _ db.products
known_by-existing none [] db = refl

existing-has_product : (i : NfeItem) (db : Db) → is_some (existing_product i db) ≡ has_product db i
unfolding existing_product
existing-has_product i db = known_by-existing i.c_ean (trim i.c_prod) db

key_eq-eq : (a b : ItemKey) → key_eq a b ≡ true → a ≡ b
key_eq-eq (by_ean a) (by_ean b) h = ap (λ (t : Text). by_ean t) ((text_eq_iff a b).0 h)
key_eq-eq (by_sku a) (by_sku b) h = ap (λ (t : Text). by_sku t) ((text_eq_iff a b).0 h)
key_eq-eq (by_item a) (by_item b) h = ap (λ (n : ℕ). by_item n) (ground (arith, h))
key_eq-eq (by_ean a) (by_sku b) h = cc
key_eq-eq (by_ean a) (by_item b) h = cc
key_eq-eq (by_sku a) (by_ean b) h = cc
key_eq-eq (by_sku a) (by_item b) h = cc
key_eq-eq (by_item a) (by_ean b) h = cc
key_eq-eq (by_item a) (by_sku b) h = cc

has_key-Some :
    (k : ItemKey) (l : List (ItemKey × NfeItem))
    → has_key k l ≡ true
    → Some (λ (j : ItemKey). j ≡ k) (keys l)
has_key-Some k [] h = cc
has_key-Some k ((j, i) ∷ rest) h = elim (Bool-cases (key_eq j k)) [
  | inl e ↦ inl (key_eq-eq j k e)
  | inr e ↦ inr (has_key-Some k rest (rw e at h))
]

differ_from :
    (j k : ItemKey) (i : NfeItem) (l : List (ItemKey × NfeItem))
    → key_eq j k ≡ false
    → All (λ (x : ItemKey). x ≢ j) (keys l)
    → All (λ (x : ItemKey). x ≢ j) (keys (l ++ ((k, i) ∷ [])))
differ_from j k i [] e a = ((λ same. cc (ap (key_eq j) same, e, key_eq_refl j)), tt)
differ_from j k i ((x, y) ∷ rest) e a = (a.0, differ_from j k i rest e a.1)

AreDifferent-append :
    (k : ItemKey) (i : NfeItem) (l : List (ItemKey × NfeItem))
    → has_key k l ≡ false
    → AreDifferent (keys l)
    → AreDifferent (keys (l ++ ((k, i) ∷ [])))
AreDifferent-append k i [] h d = (tt, tt)
AreDifferent-append k i ((j, x) ∷ rest) h d = elim (Bool-cases (key_eq j k)) [
  | inl e ↦ cc (rw e at h)
  | inr e ↦ (differ_from j k i rest e d.0, AreDifferent-append k i rest (rw e at h) d.1)
]

All-append_one :
    (P : ItemKey → Type 0) (k : ItemKey) (i : NfeItem) (l : List (ItemKey × NfeItem))
    → All P (keys l)
    → P k
    → All P (keys (l ++ ((k, i) ∷ [])))
All-append_one P k i [] a p = (p, tt)
All-append_one P k i ((j, x) ∷ rest) a p = (a.0, All-append_one P k i rest a.1 p)

module _ (db : Db) where
  Source : List NfeItem → ItemKey → Type 0
  Source all k = Some (λ (i : NfeItem). (has_product db i ≡ false) × (key_as i ≡ k)) all

  to_create-AreDifferent :
      (chosen : List (ItemKey × NfeItem)) (is : List NfeItem)
      → AreDifferent (keys chosen)
      → AreDifferent (keys (to_create db chosen is))
  unfolding to_create
  to_create-AreDifferent chosen [] d = d
  to_create-AreDifferent chosen (i ∷ is) d =
      elim (Bool-cases (not (is_some (existing_product i db)) && not (has_key (key_of i) chosen))) [
        | inr e ↦ rw e (to_create-AreDifferent chosen is d)
        | inl e ↦ rw e (
            to_create-AreDifferent (chosen ++ ((key_of i, i) ∷ [])) is
              (AreDifferent-append (key_of i) i chosen (ground (arith, e)) d))
      ]

  to_create-Source :
      (P : ItemKey → Type 0) (chosen : List (ItemKey × NfeItem)) (is : List NfeItem)
      → All P (keys chosen)
      → All (λ (i : NfeItem). has_product db i ≡ false → P (key_of i)) is
      → All P (keys (to_create db chosen is))
  unfolding to_create
  to_create-Source P chosen [] a b = a
  to_create-Source P chosen (i ∷ is) a b =
      elim (Bool-cases (not (is_some (existing_product i db)) && not (has_key (key_of i) chosen))) [
        | inr e ↦ rw e (to_create-Source P chosen is a b.1)
        | inl e ↦
            let lacking : is_some (existing_product i db) ≡ false = ground (arith, e) in
            let new = sym (existing-has_product i db) ∙ lacking in
            rw e (
              to_create-Source P (chosen ++ ((key_of i, i) ∷ [])) is
                (All-append_one P (key_of i) i chosen a (b.0 new)) b.1)
      ]

  each-Source :
      (is : List NfeItem)
      → All (λ (i : NfeItem). has_product db i ≡ false → Source is (key_of i)) is
  unfolding Source
  each-Source [] = tt
  each-Source (i ∷ is) =
      ((λ n. inl (n, sym (key_of-key_as i))), All-map _ _ is (λ j f n. inr (f n)) (each-Source is))

  pub to_create-AreMissing : (is : List NfeItem) → AreMissing db is (keys (to_create db [] is))
  unfolding Source
  to_create-AreMissing is = (
    to_create-AreDifferent [] is tt,
    All-map _ _ is
        (λ i c n.
          let lacking = existing-has_product i db ∙ n in
          let there : has_key (key_of i) (to_create db [] is) ≡ true = rw lacking at c in
          Some-map _ _ _ (λ k e. e ∙ key_of-key_as i)
            (has_key-Some (key_of i) (to_create db [] is) there))
        (to_create-covered db [] is),
    to_create-Source (Source is) [] is tt (each-Source is),
  )

pub length-keys : (l : List (ItemKey × NfeItem)) → length (keys l) ≡ length l
length-keys [] = refl
length-keys ((k, i) ∷ rest) = ap (λ (n : ℕ). suc n) (length-keys rest)

-- ===== src/Stock/Nfe/Bulk/Linked.antt =====
-- Every item of an invoice is linked by a bulk creation to a product that is there.
use mathlib.Core.Path.{subst}
use estoque_saas.Base.{
  ℕ, suc, ◌≡◌, refl, sym, ap, ◌∙◌, inl, inr, Bool, true, false, some, List, [], ◌∷◌, map, arith,
  is_some, any, find, All, Bool-cases, Option-cases, ◌==◌, if◌then◌else◌, update_where, truthy,
}
use estoque_saas.Shared.Transaction.{Result, ok, err, crash, ◌>>=◌, pure, modify, continue}
use estoque_saas.Stock.Rows.{Product, NfeItem, NfeItemStatus, matched, created}
use estoque_saas.Stock.Db.{Db, is_product}
use estoque_saas.Stock.Nfe.{is_unmatched}
use estoque_saas.Stock.Nfe.Reading.{match_id}
use estoque_saas.Catalog.Csv.{trim}
use estoque_saas.Stock.Nfe.Bulk.Counts.{AllFound}
use estoque_saas.Stock.Nfe.Bulk.{
  ItemKey, Entry, key_eq, key_of, id_of, entry_of, existing_product, linked_item, product_for,
  link_entry, link_each,
}

-- The rows with this identifier have a product that is there, and are no longer unmatched.
abbrev pub IsLinked : Db → ℕ → Type 0
IsLinked db id =
    All
      (λ (x : NfeItem).
        x.id ≡ id
        → (is_unmatched x.status ≡ false)
          × (p : ℕ) × (x.matched_product_id ≡ some p)
          × (is_product p db ≡ true))
      db.nfe_items

-- Each of these entries has a product that is there.
abbrev pub AllKnown : List (ItemKey × ℕ) → List Entry → Db → Type 0
AllKnown made es db =
    All (λ (e : Entry). (p : ℕ) × (product_for e made ≡ some p) × (is_product p db ≡ true)) es

module _ (db : Db) (p : ℕ) (there : is_product p db ≡ true) (status : NfeItemStatus)
    (settled : is_unmatched status ≡ false) (linked : ℕ) where
  abbrev after : Db
  after = record db {
    nfe_items = update_where (λ i. i.id == linked) (linked_item p status) db.nfe_items;
  }

  abbrev Fine : ℕ → NfeItem → Type 0
  Fine id x =
      x.id ≡ id
      → (is_unmatched x.status ≡ false)
        × (q : ℕ) × (x.matched_product_id ≡ some q)
        × (is_product q db ≡ true)

  update-Fine :
      (id : ℕ) (xs : List NfeItem)
      → All (Fine id) xs
      → All (Fine id) (update_where (λ i. i.id == linked) (linked_item p status) xs)
  update-Fine id [] a = tt
  update-Fine id (x ∷ xs) a = (
    elim (Bool-cases (x.id == linked)) [
      | inl e ↦ rw e (λ h. (settled, p, refl, there))
      | inr e ↦ rw e a.0
    ],
    update-Fine id xs a.1,
  )

  update-own :
      (xs : List NfeItem)
      → All (Fine linked) (update_where (λ i. i.id == linked) (linked_item p status) xs)
  update-own [] = tt
  update-own (x ∷ xs) = (
    elim (Bool-cases (x.id == linked)) [
      | inl e ↦ rw e (λ h. (settled, p, refl, there))
      | inr e ↦ rw e (λ h. absurd (ground (arith, e, h)))
    ],
    update-own xs,
  )

-- The item's status after a link.
abbrev status_of : Entry → NfeItemStatus
status_of e = if is_some e.product_id then matched else created

status_of-settled : (e : Entry) → is_unmatched (status_of e) ≡ false
status_of-settled e = elim (Bool-cases (is_some e.product_id)) [
  | inl h ↦ rw h refl
  | inr h ↦ rw h refl
]

AllKnown-after :
    (made : List (ItemKey × ℕ)) (es : List Entry) (db later : Db)
    → later.products ≡ db.products
    → AllKnown made es db
    → AllKnown made es later
AllKnown-after made [] db later same a = tt
AllKnown-after made (e ∷ es) db later same a = (
  (a.0.0, a.0.1, ap (any (λ p. p.id == a.0.0)) same ∙ a.0.2),
  AllKnown-after made es db later same a.1,
)

counted-state : (f : ℕ → ℕ) (r : Result ℕ × Db) → (continue (λ n. pure (f n)) r).1 ≡ r.1
unfolding continue pure
counted-state f (ok n, db) = refl
counted-state f (err e, db) = refl
counted-state f (crash, db) = refl

abbrev link_one : Entry → ℕ → Db → Db
link_one e p db = record db {
  nfe_items = update_where (λ i. i.id == e.item_id) (linked_item p (status_of e)) db.nfe_items;
}

module _ (made : List (ItemKey × ℕ)) where
  link_each-cons :
      (e : Entry) (es : List Entry) (p : ℕ) (db : Db)
      → product_for e made ≡ some p
      → (link_each made (e ∷ es) db).1 ≡ (link_each made es (link_one e p db)).1
  unfolding link_each link_entry ◌>>=◌ modify
  link_each-cons e es p db found =
      rw found (counted-state (λ n. suc n) (link_each made es (link_one e p db)))

  link_each-none : (db : Db) → (link_each made [] db).1 ≡ db
  unfolding link_each pure
  link_each-none db = refl

  -- What is linked stays linked.
  link_each-kept :
      (id : ℕ) (es : List Entry) (db : Db)
      → AllKnown made es db
      → IsLinked db id
      → IsLinked (link_each made es db).1 id
  link_each-kept id [] db a h = rw (link_each-none db) h
  link_each-kept id (e ∷ es) db a h =
      let (p, found, there) = a.0 in
      rw (link_each-cons e es p db found) (
        link_each-kept id es (link_one e p db)
          (AllKnown-after made es db (link_one e p db) refl a.1)
          (update-Fine db p there (status_of e) (status_of-settled e) e.item_id id db.nfe_items h))

  -- Every item of the entries is linked at the end.
  pub link_each-IsLinked :
      (es : List Entry) (db : Db)
      → AllKnown made es db
      → All (λ (e : Entry). IsLinked (link_each made es db).1 e.item_id) es
  link_each-IsLinked [] db a = tt
  link_each-IsLinked (e ∷ es) db a =
      let (p, found, there) = a.0 in
      let rest = AllKnown-after made es db (link_one e p db) refl a.1 in
      subst (λ last. IsLinked last e.item_id × All (λ (x : Entry). IsLinked last x.item_id) es)
        (sym (link_each-cons e es p db found))
        (
          link_each-kept e.item_id es (link_one e p db) rest
              (update-own db p there (status_of e) (status_of-settled e) e.item_id db.nfe_items),
          link_each-IsLinked es (link_one e p db) rest,
        )

-- Where the products of the entries come from.
found-is_product :
    (test : Product → Bool) (p : ℕ) (ps : List Product)
    → match_id (find test ps) ≡ some p
    → any (λ q. q.id == p) ps ≡ true
found-is_product test p [] h = cc
found-is_product test p (q ∷ qs) h = elim (Bool-cases (test q)) [
  | inl e ↦ let same : some q.id ≡ some p = rw e at h in ground (arith, same)
  | inr e ↦ let rest = found-is_product test p qs (rw e at h) in ground (arith, rest)
]

existing-is_product :
    (i : NfeItem) (db : Db) (p : ℕ) → existing_product i db ≡ some p → is_product p db ≡ true
unfolding existing_product
existing-is_product i db p h = elim (Bool-cases (truthy i.c_ean)) [
  | inl e ↦ found-is_product _ p db.products (rw e at h)
  | inr e ↦ elim (Bool-cases (truthy (some (trim i.c_prod)))) [
    | inl f ↦ found-is_product _ p db.products (rw f at (rw e at h))
    | inr f ↦ cc (rw f at (rw e at h))
  ]
]

id_of-is_product :
    (k : ItemKey) (made : List (ItemKey × ℕ)) (db : Db) (p : ℕ)
    → All (λ (m : ItemKey × ℕ). is_product m.1 db ≡ true) made
    → id_of k made ≡ some p
    → is_product p db ≡ true
id_of-is_product k [] db p a h = cc
id_of-is_product k ((j, id) ∷ rest) db p a h = elim (Bool-cases (key_eq j k)) [
  | inl e ↦ subst (λ x. is_product x db ≡ true) (cc (rw e at h)) a.0
  | inr e ↦ id_of-is_product k rest db p a.1 (rw e at h)
]

pub AllFound-AllKnown :
    (made : List (ItemKey × ℕ)) (is : List NfeItem) (db later : Db)
    → ((p : ℕ) → is_product p db ≡ true → is_product p later ≡ true)
    → All (λ (m : ItemKey × ℕ). is_product m.1 later ≡ true) made
    → AllFound made (map (entry_of db) is)
    → AllKnown made (map (entry_of db) is) later
AllFound-AllKnown made [] db later kept a f = tt
AllFound-AllKnown made (i ∷ is) db later kept a f = (
  elim (Option-cases (existing_product i db)) [
    | inr (p, e) ↦ (p, rw e refl, kept p (existing-is_product i db p e))
    | inl n ↦ elim (Option-cases (id_of (key_of i) made)) [
      | inr (p, e) ↦ (p, rw n e, id_of-is_product (key_of i) made later p a e)
      | inl e ↦ absurd (ground (arith, (rw (n, e) at f.0)))
    ]
  ],
  AllFound-AllKnown made is db later kept a f.1,
)

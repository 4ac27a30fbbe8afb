-- ===== src/Sales/Dashboard/Stalled.antt =====
-- services/app/src/modules/sales/dashboard.ts: the products that nothing has moved for some days.
use estoque_saas.Base.{
  ℕ, ◌≡◌, refl, ap, ◌∙◌, Bool, true, not, ◌&&◌, Option, none, some, List, [], ◌∷◌, map, ltb, leb,
  ◌==◌, if◌then◌else◌, select, any, mem_nat, or_else, Text, arith, All,
}
use estoque_saas.Stock.Rows.{Product, Movement}
use estoque_saas.Stock.Db.{Db, is_live}
use estoque_saas.Stock.Balance.{wanted}

pub record StalledProduct : Type 0 where
  pub product_id : ℕ
  pub product_name : Text
  pub last_movement_at : Option ℕ

abbrev set_newest : ℕ → ℕ → List (ℕ × ℕ) → List (ℕ × ℕ)
set_newest p at [] = (p, at) ∷ []
set_newest p at ((q, t) ∷ rest) =
    if q == p then (q, if ltb t at then at else t) ∷ rest else (q, t) ∷ set_newest p at rest

-- `SELECT DISTINCT ON (product_id) product_id, created_at ... ORDER BY product_id, created_at DESC`:
-- a row for each product, with its latest instant.
pub newest_rows : (Movement → Bool) → List Movement → List (ℕ × ℕ)
newest_rows keep [] = []
newest_rows keep (m ∷ ms) =
    let rest = newest_rows keep ms in
    if keep m then set_newest m.product_id m.created_at rest else rest

-- `lastMovementByProduct.get(id) ?? null`
abbrev last_of : ℕ → List (ℕ × ℕ) → Option ℕ
last_of p [] = none
last_of p ((q, t) ∷ rest) = if q == p then some t else last_of p rest

-- `!last || last < cutoff`
abbrev is_idle : ℕ → Option ℕ → Bool
is_idle cutoff none = true
is_idle cutoff (some last) = ltb last cutoff

-- The loop over the products.
pub stalled_among : ℕ → List (ℕ × ℕ) → List Product → List StalledProduct
stalled_among cutoff rows [] = []
stalled_among cutoff rows (p ∷ ps) =
    let rest = stalled_among cutoff rows ps in
    let last = last_of p.id rows in
    if is_idle cutoff last
    then record { product_id = p.id; product_name = p.name; last_movement_at = last } ∷ rest
    else rest

abbrev query : List ℕ → Option ℕ → List Movement → List (ℕ × ℕ)
query [] store ms = []
query (id ∷ ids) store ms = newest_rows (wanted (id ∷ ids) store) ms

abbrev pub ids_of : List Product → List ℕ
ids_of = map (λ (p : Product). p.id)

-- `getStalledProducts`, where `ago` is the instant some days before the present one.
unfoldable pub get_stalled_products : (ℕ → ℕ) → Option ℕ → Option ℕ → Db → List StalledProduct
unfolding stalled_among newest_rows
get_stalled_products ago store days db =
    let products = select is_live db.products in
    stalled_among (ago (or_else days 30)) (query (ids_of products) store db.movements) products

-- Whether a movement of a product, in the store that is asked for if one is, is not older than the
-- cutoff.
abbrev in_store : Option ℕ → Movement → Bool
in_store none m = true
in_store (some store) m = m.store_id == store

abbrev pub moves_since : ℕ → Option ℕ → ℕ → Movement → Bool
moves_since cutoff store p m = (m.product_id == p) && (in_store store m && leb cutoff m.created_at)

abbrev pub is_stalled : ℕ → Option ℕ → List Movement → Product → Bool
is_stalled cutoff store ms p = is_live p && not (any (moves_since cutoff store p.id) ms)

is_idle-set_newest :
    (cutoff p q at : ℕ) (rows : List (ℕ × ℕ))
    → is_idle cutoff (last_of p (set_newest q at rows))
      ≡ is_idle cutoff (last_of p rows) && not ((q == p) && leb cutoff at)
is_idle-set_newest cutoff p q at [] = ground arith
is_idle-set_newest cutoff p q at ((r, t) ∷ rest) =
    ground (arith, is_idle-set_newest cutoff p q at rest)

is_idle-query :
    (cutoff : ℕ) (store : Option ℕ) (p : ℕ) (ids : List ℕ) (ms : List Movement)
    → mem_nat p ids ≡ true
    → is_idle cutoff (last_of p (newest_rows (wanted ids store) ms))
      ≡ not (any (moves_since cutoff store p) ms)
unfolding newest_rows
is_idle-query cutoff store p ids [] h = refl
is_idle-query cutoff none p ids (m ∷ ms) h =
    let rest = newest_rows (wanted ids none) ms in
    ground (
      arith,
      is_idle-query cutoff none p ids ms h,
      is_idle-set_newest cutoff p m.product_id m.created_at rest,
    )
is_idle-query cutoff (some store) p ids (m ∷ ms) h =
    let rest = newest_rows (wanted ids (some store)) ms in
    ground (
      arith,
      is_idle-query cutoff (some store) p ids ms h,
      is_idle-set_newest cutoff p m.product_id m.created_at rest,
    )

abbrev pub stalled_ids : List StalledProduct → List ℕ
stalled_ids = map (λ (s : StalledProduct). s.product_id)

-- The products of which a list of identifiers has all.
abbrev AreAmong : List ℕ → List Product → Type 0
AreAmong ids = All λ (p : Product). mem_nat p.id ids ≡ true

AreAmong-grow : (i : ℕ) (ids : List ℕ) (ps : List Product) → AreAmong ids ps → AreAmong (i ∷ ids) ps
AreAmong-grow i ids [] h = tt
AreAmong-grow i ids (p ∷ ps) h = (ground (arith, h.0), AreAmong-grow i ids ps h.1)

AreAmong-ids_of : (ps : List Product) → AreAmong (ids_of ps) ps
AreAmong-ids_of [] = tt
AreAmong-ids_of (p ∷ ps) = (ground arith, AreAmong-grow p.id (ids_of ps) ps (AreAmong-ids_of ps))

stalled_ids-stalled_among :
    (cutoff : ℕ) (store : Option ℕ) (ids : List ℕ) (ms : List Movement) (ps : List Product)
    → AreAmong ids ps
    → stalled_ids (stalled_among cutoff (newest_rows (wanted ids store) ms) ps)
      ≡ ids_of (select (λ p. not (any (moves_since cutoff store p.id) ms)) ps)
unfolding stalled_among
stalled_ids-stalled_among cutoff store ids ms [] h = refl
stalled_ids-stalled_among cutoff store ids ms (p ∷ ps) h = grind (
  arith,
  stalled_ids-stalled_among cutoff store ids ms ps h.1,
  is_idle-query cutoff store p.id ids ms h.0,
)

select-live :
    (test : Product → Bool) (ps : List Product)
    → select test (select is_live ps) ≡ select (λ p. is_live p && test p) ps
select-live test [] = refl
select-live test (p ∷ ps) = ground (arith, select-live test ps)

stalled_ids-query :
    (cutoff : ℕ) (store : Option ℕ) (ms : List Movement) (ps : List Product)
    → stalled_ids (stalled_among cutoff (query (ids_of ps) store ms) ps)
      ≡ ids_of (select (λ p. not (any (moves_since cutoff store p.id) ms)) ps)
unfolding stalled_among
stalled_ids-query cutoff store ms [] = refl
stalled_ids-query cutoff store ms (p ∷ ps) =
    stalled_ids-stalled_among cutoff store (ids_of (p ∷ ps)) ms (p ∷ ps) (AreAmong-ids_of (p ∷ ps))

-- The stalled products are, in the order of the products, exactly those not deleted of which no
-- movement, in the store that is asked for or in any, is as recent as the cutoff, which is thirty days
-- back when no number of days is given: the one batched query answers what a query for each product
-- would.
pub get_stalled_products_lem :
    (ago : ℕ → ℕ) (store days : Option ℕ) (db : Db)
    → stalled_ids (get_stalled_products ago store days db)
      ≡ ids_of (select (is_stalled (ago (or_else days 30)) store db.movements) db.products)
unfolding get_stalled_products
get_stalled_products_lem ago store days db =
    let cutoff = ago (or_else days 30) in
    stalled_ids-query cutoff store db.movements (select is_live db.products)
    ∙ ap ids_of
        (select-live (λ p. not (any (moves_since cutoff store p.id) db.movements)) db.products)

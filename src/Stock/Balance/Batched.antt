-- ===== src/Stock/Balance/Batched.antt =====
-- The batched read of the stock against the read of one product.
use estoque_saas.Base.{
  ℕ, ◌≡◌, refl, ◌∙◌, inl, inr, true, false, Option, none, some, List, [], ◌∷◌, arith, map, ℤ, pos,
  ◌+ℤ◌, int_laws, ◌==◌, if◌then◌else◌, or_else, any, sum_ℤ, mem_nat, Bool-cases,
}
use estoque_saas.Stock.Rows.{Movement}
use estoque_saas.Stock.Balance.{
  is_on, latest, balance, stock_at, stores_of, current_stock, mem_pair, pairs_of, get, set_sum,
  sum_rows, wanted, get_current_stock_for_products,
}

abbrev total_of : ℕ → List (ℕ × ℤ) → ℤ
total_of p [] = pos 0
total_of p ((q, b) ∷ rows) = (if q == p then b else pos 0) +ℤ total_of p rows

-- `get(id) ?? 0`
abbrev pub stock_in : ℕ → List (ℕ × ℤ) → ℤ
stock_in p m = or_else (get p m) (pos 0)

stock_in-set_sum :
    (p q : ℕ) (b : ℤ) (m : List (ℕ × ℤ))
    → stock_in p (set_sum q b m) ≡ stock_in p m +ℤ (if q == p then b else pos 0)
stock_in-set_sum p q b [] = grind int_laws
stock_in-set_sum p q b ((j, w) ∷ rest) = grind (int_laws, stock_in-set_sum p q b rest)

stock_in-sum_rows :
    (p : ℕ) (rows m : List (ℕ × ℤ)) → stock_in p (sum_rows rows m) ≡ stock_in p m +ℤ total_of p rows
unfolding sum_rows
stock_in-sum_rows p [] m = grind int_laws
stock_in-sum_rows p ((q, b) ∷ rows) m =
    grind (int_laws, stock_in-sum_rows p rows (set_sum q b m), stock_in-set_sum p q b m)

module _ (f : ℕ → ℕ → ℤ) where
  abbrev rows : List (ℕ × ℕ) → List (ℕ × ℤ)
  rows = map (λ (pair : ℕ × ℕ). (pair.0, f pair.0 pair.1))

  -- Over all stores.
  mem_pair-pairs_of :
      (ids : List ℕ) (p s : ℕ) (ms : List Movement)
      → mem_nat p ids ≡ true
      → mem_pair p s (pairs_of (wanted ids none) ms) ≡ mem_nat s (stores_of p ms)
  unfolding pairs_of stores_of
  mem_pair-pairs_of ids p s [] h = refl
  mem_pair-pairs_of ids p s (m ∷ ms) h =
      ground (arith, mem_pair-pairs_of ids p s ms h, mem_pair-pairs_of ids p m.store_id ms h)

  total_of-pairs_of :
      (ids : List ℕ) (p : ℕ) (ms : List Movement)
      → mem_nat p ids ≡ true
      → total_of p (rows (pairs_of (wanted ids none) ms)) ≡ sum_ℤ (map (f p) (stores_of p ms))
  unfolding pairs_of stores_of
  total_of-pairs_of ids p [] h = refl
  total_of-pairs_of ids p (m ∷ ms) h =
      grind (int_laws, total_of-pairs_of ids p ms h, mem_pair-pairs_of ids p m.store_id ms h)

  -- In one store.
  mem_pair-pairs_of_store :
      (ids : List ℕ) (p store : ℕ) (ms : List Movement)
      → mem_nat p ids ≡ true
      → mem_pair p store (pairs_of (wanted ids (some store)) ms) ≡ any (is_on p store) ms
  unfolding pairs_of
  mem_pair-pairs_of_store ids p store [] h = refl
  mem_pair-pairs_of_store ids p store (m ∷ ms) h =
      ground (arith, mem_pair-pairs_of_store ids p store ms h)

  total_of-pairs_of_store :
      (ids : List ℕ) (p store : ℕ) (ms : List Movement)
      → mem_nat p ids ≡ true
      → total_of p (rows (pairs_of (wanted ids (some store)) ms))
        ≡ (if any (is_on p store) ms then f p store else pos 0)
  unfolding pairs_of
  total_of-pairs_of_store ids p store [] h = refl
  total_of-pairs_of_store ids p store (m ∷ ms) h =
      grind (
        int_laws,
        total_of-pairs_of_store ids p store ms h,
        mem_pair-pairs_of_store ids p store ms h,
      )

latest-none :
    (p store : ℕ) (ms : List Movement) → any (is_on p store) ms ≡ false → latest p store ms ≡ none
unfolding latest
latest-none p store [] h = refl
latest-none p store (m ∷ ms) h = ground (arith, latest-none p store ms)

stock_at-none :
    (p store : ℕ) (ms : List Movement)
    → any (is_on p store) ms ≡ false
    → stock_at p store ms ≡ pos 0
unfolding stock_at balance
stock_at-none p store ms h = rw (latest-none p store ms h) refl

total_of_current :
    (p : ℕ) (ids : List ℕ) (store : Option ℕ) (ms : List Movement)
    → mem_nat p ids ≡ true
    → total_of p (rows (λ q s. stock_at q s ms) (pairs_of (wanted ids store) ms))
      ≡ current_stock p store ms
unfolding current_stock
total_of_current p ids none ms h = total_of-pairs_of (λ q s. stock_at q s ms) ids p ms h
total_of_current p ids (some store) ms h =
    total_of-pairs_of_store (λ q s. stock_at q s ms) ids p store ms h
    ∙ elim (Bool-cases (any (is_on p store) ms)) [
      | inl e ↦ rw e refl
      | inr e ↦ rw (e, stock_at-none p store ms e) refl
    ]

-- The batched read answers, for every product that is asked for, what the read of that product alone
-- answers, in one store and over all of them, a missing entry being zero.
pub stock_in-get_current_stock_for_products :
    (ids : List ℕ) (store : Option ℕ) (ms : List Movement) (p : ℕ)
    → mem_nat p ids ≡ true
    → stock_in p (get_current_stock_for_products ids store ms) ≡ current_stock p store ms
unfolding get_current_stock_for_products
stock_in-get_current_stock_for_products [] store ms p h = cc
stock_in-get_current_stock_for_products (id ∷ ids) store ms p h =
    let all : List (ℕ × ℤ) =
      rows (λ q s. stock_at q s ms) (pairs_of (wanted (id ∷ ids) store) ms) in
    grind (int_laws, stock_in-sum_rows p all [], total_of_current p (id ∷ ids) store ms h)

-- ===== src/Stock/Alerts/Due.antt =====
-- The batches and the products that a scan of expiry-scan.ts notifies of.
use estoque_saas.Base.{
  ℕ, ◌+◌, ◌*◌, ◌≤◌, ◌≡◌, refl, sym, ap, ◌∙◌, ◌⊎◌, inl, inr, Bool, true, ◌&&◌, not, Option, none,
  some, List, [], ◌∷◌, map, arith, All, All-both, All-every, All-map, All-select, Some, Some-both,
  Some-map, Some-select, select, mem_nat, if◌then◌else◌, Bool-cases, ℤ, pos, ◌+ℤ◌, ◌≤ℤ◌, ltb_ℤ,
  int_laws, is_some, or_else, leb,
}
use estoque_saas.Stock.Rows.{Product, Batch}
use estoque_saas.Stock.Db.{Db, is_live}
use estoque_saas.Stock.Balance.{current_stock, get, get_current_stock_for_products}
use estoque_saas.Stock.Balance.Batched.{stock_in-get_current_stock_for_products}
use estoque_saas.Stock.Alerts.{
  AlertsConfig, max_window, expires_within, largest, below_minimum, wants_low_stock,
}

abbrev listed : Option AlertsConfig → List ℕ
listed none = []
listed (some c) = or_else c.expiry_alert_days []

-- Thirty days, or a number of days that the tenant has configured.
abbrev pub IsWindow : Option AlertsConfig → ℕ → Type 0
IsWindow config d = (d ≡ 30) ⊎ Some (λ (e : ℕ). e ≡ d) (listed config)

-- A batch with units left that expires, or has expired, within such a window.
abbrev pub IsExpiring : ℕ → Option AlertsConfig → Batch → Type 0
IsExpiring now config b =
    (pos 1 ≤ℤ b.quantity)
    × (d : ℕ) × IsWindow config d
    × (b.expiry_date * 86400000 ≤ now + d * 86400000)

-- A product that is not deleted and whose stock over all the stores is below its minimum, where the
-- tenant has not turned such alerts off.
abbrev pub IsLow : Option AlertsConfig → Db → Product → Type 0
IsLow config db p =
    ((c : AlertsConfig) → config ≡ some c → c.low_stock_alert_enabled ≡ true)
    × (p.deleted_at ≡ none)
    × (current_stock p.id none db.movements +ℤ pos 1 ≤ℤ p.min_stock_global)

largest-least : (ds : List ℕ) → 30 ≤ largest ds
largest-least [] = omega arith
largest-least (d ∷ ds) = ground (arith, largest-least ds)

largest-bounds : (d : ℕ) (ds : List ℕ) → Some (λ (e : ℕ). e ≡ d) ds → d ≤ largest ds
largest-bounds d [] s = absurd s
largest-bounds d (e ∷ es) (inl h) = ground (arith, h)
largest-bounds d (e ∷ es) (inr s) = ground (arith, largest-bounds d es s)

largest-Some : (ds : List ℕ) → (largest ds ≡ 30) ⊎ Some (λ (e : ℕ). e ≡ largest ds) ds
largest-Some [] = inl refl
largest-Some (d ∷ ds) = elim (Bool-cases (leb (largest ds) d)) [
  | inl e ↦ rw e (inr (inl refl))
  | inr e ↦
      let same : largest (d ∷ ds) ≡ largest ds = rw e refl in
      elim (largest-Some ds) [
        | inl h ↦ inl (same ∙ h)
        | inr s ↦
            inr (inr (Some-map _ (λ (x : ℕ). x ≡ largest (d ∷ ds)) ds (λ x q. q ∙ sym same) s))
      ]
]

listed-bounds :
    (o : Option (List ℕ)) (d : ℕ)
    → Some (λ (e : ℕ). e ≡ d) (or_else o [])
    → d ≤ largest (or_else o (30 ∷ 15 ∷ 7 ∷ []))
listed-bounds none d s = absurd s
listed-bounds (some ds) d s = largest-bounds d ds s

listed-window :
    (o : Option (List ℕ))
    → (largest (or_else o (30 ∷ 15 ∷ 7 ∷ [])) ≡ 30)
      ⊎ Some (λ (e : ℕ). e ≡ largest (or_else o (30 ∷ 15 ∷ 7 ∷ []))) (or_else o [])
listed-window none = inl refl
listed-window (some ds) = largest-Some ds

window-bounds : (config : Option AlertsConfig) (d : ℕ) → IsWindow config d → d ≤ max_window config
unfolding max_window
window-bounds none d (inl h) = omega (arith, h)
window-bounds none d (inr s) = absurd s
window-bounds (some c) d (inl h) =
    let least = largest-least (or_else c.expiry_alert_days (30 ∷ 15 ∷ 7 ∷ [])) in
    omega (arith, h, least)
window-bounds (some c) d (inr s) = listed-bounds c.expiry_alert_days d s

max_window-IsWindow : (config : Option AlertsConfig) → IsWindow config (max_window config)
unfolding max_window
max_window-IsWindow none = inl refl
max_window-IsWindow (some c) = listed-window c.expiry_alert_days

pub expires_within_if :
    (now : ℕ) (config : Option AlertsConfig) (b : Batch)
    → IsExpiring now config b
    → (expires_within now config b && ltb_ℤ (pos 0) b.quantity) ≡ true
expires_within_if now config b (units, d, window, soon) =
    let bound = window-bounds config d window in ground (arith, units, soon, bound)

pub expires_within_only_if :
    (now : ℕ) (config : Option AlertsConfig) (b : Batch)
    → (expires_within now config b && ltb_ℤ (pos 0) b.quantity) ≡ true
    → IsExpiring now config b
expires_within_only_if now config b h =
    (ground (arith, h), max_window config, max_window-IsWindow config, ground (arith, h))

-- The low products are those that the batched read finds.
abbrev reads_low : Db → List ℕ → Product → Bool
reads_low db ids p =
    ltb_ℤ (or_else (get p.id (get_current_stock_for_products ids none db.movements)) (pos 0))
      p.min_stock_global

reads_low-current :
    (db : Db) (ids : List ℕ) (p : Product)
    → mem_nat p.id ids ≡ true
    → reads_low db ids p ≡ ltb_ℤ (current_stock p.id none db.movements) p.min_stock_global
reads_low-current db ids p h =
    ap (λ q. ltb_ℤ q p.min_stock_global)
      (stock_in-get_current_stock_for_products ids none db.movements p.id h)

abbrev pub ids_of : List Product → List ℕ
ids_of = map (λ (p : Product). p.id)

mem-ids_of :
    (ps : List Product)
    → All (λ (p : Product). is_live p ≡ true → mem_nat p.id (ids_of (select is_live ps)) ≡ true) ps
mem-ids_of [] = tt
mem-ids_of (p ∷ ps) = elim (Bool-cases (is_live p)) [
  | inl e ↦ (
    λ h. rw e (ground arith),
    All-map _ _ ps (λ q f h. rw e (ground (arith, f h))) (mem-ids_of ps),
  )
  | inr e ↦ ((λ h. cc), All-map _ _ ps (λ q f h. rw e (f h)) (mem-ids_of ps))
]

select-select :
    (t u : Product → Bool) (ps : List Product)
    → select t (select u ps) ≡ select (λ p. u p && t p) ps
select-select t u [] = refl
select-select t u (p ∷ ps) = ground (arith, select-select t u ps)

-- The products that a scan notifies of.
abbrev pub low_now : Option AlertsConfig → Db → List Product
low_now config db = if wants_low_stock config then below_minimum db else []

wants_if :
    (config : Option AlertsConfig)
    → ((c : AlertsConfig) → config ≡ some c → c.low_stock_alert_enabled ≡ true)
    → wants_low_stock config ≡ true
wants_if none h = refl
wants_if (some c) h = h c refl

wants_only_if :
    (config : Option AlertsConfig)
    → wants_low_stock config ≡ true
    → (c : AlertsConfig) → config ≡ some c
    → c.low_stock_alert_enabled ≡ true
wants_only_if none h c e = cc
wants_only_if (some x) h c e = cc

none_if : (o : Option ℕ) → not (is_some o) ≡ true → o ≡ none
none_if none h = refl
none_if (some x) h = cc

below_if : (a m : ℤ) → a +ℤ pos 1 ≤ℤ m → ltb_ℤ a m ≡ true
below_if a m h = grind int_laws

below_only_if : (a m : ℤ) → ltb_ℤ a m ≡ true → a +ℤ pos 1 ≤ℤ m
below_only_if a m h = grind int_laws

module _ (db : Db) where
  abbrev live_ids : List ℕ
  live_ids = ids_of (select is_live db.products)

  abbrev is_found : Product → Bool
  is_found p = is_live p && reads_low db live_ids p

  below_minimum_found : below_minimum db ≡ select is_found db.products
  unfolding below_minimum
  below_minimum_found = select-select (reads_low db live_ids) is_live db.products

  found_if :
      (config : Option AlertsConfig) (p : Product)
      → (is_live p ≡ true → mem_nat p.id live_ids ≡ true)
      → IsLow config db p
      → is_found p ≡ true
  found_if config p known (wanted, kept, short) =
      let live : is_live p ≡ true = rw kept refl in
      rw live (
        reads_low-current db live_ids p (known live)
        ∙ below_if (current_stock p.id none db.movements) p.min_stock_global short)

  found_only_if :
      (config : Option AlertsConfig) (p : Product)
      → wants_low_stock config ≡ true
      → (is_live p ≡ true → mem_nat p.id live_ids ≡ true)
      → is_found p ≡ true
      → IsLow config db p
  found_only_if config p wanted known h =
      let live : is_live p ≡ true = ground (arith, h) in
      let low : reads_low db live_ids p ≡ true = ground (arith, h) in
      let short = sym (reads_low-current db live_ids p (known live)) ∙ low in
      (
        wants_only_if config wanted,
        none_if p.deleted_at live,
        below_only_if (current_stock p.id none db.movements) p.min_stock_global short,
      )

  pub IsLow-AllNotified :
      (config : Option AlertsConfig) (P : ℕ → Type 0)
      → All P (ids_of (low_now config db))
      → All (λ (p : Product). IsLow config db p → P p.id) db.products
  IsLow-AllNotified config P a = elim (Bool-cases (wants_low_stock config)) [
    | inl w ↦
        let found : All P (ids_of (select is_found db.products)) =
          rw below_minimum_found at (rw w at a) in
        All-map _ _ db.products (λ p f h. f.1 (found_if config p f.0 h))
          (All-both _ _ db.products (mem-ids_of db.products)
            (All-select (λ (p : Product). p.id) is_found P db.products found))
    | inr w ↦ All-every _ db.products (λ p h. cc (w, wants_if config h.0))
  ]

  pub IsLow-IsFounded :
      (config : Option AlertsConfig) (r : ℕ)
      → Some (λ (i : ℕ). i ≡ r) (ids_of (low_now config db))
      → Some (λ (p : Product). (p.id ≡ r) × IsLow config db p) db.products
  IsLow-IsFounded config r s = elim (Bool-cases (wants_low_stock config)) [
    | inl w ↦
        let found : Some (λ (i : ℕ). i ≡ r) (ids_of (select is_found db.products)) =
          rw below_minimum_found at (rw w at s) in
        Some-map _ _ db.products (λ p f. (f.1.0, found_only_if config p w f.0 f.1.1))
          (Some-both _ _ db.products (mem-ids_of db.products)
            (Some-select (λ (p : Product). p.id) is_found r db.products found))
    | inr w ↦ absurd (rw w at s)
  ]

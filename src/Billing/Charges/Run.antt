-- ===== src/Billing/Charges/Run.antt =====
-- The monthly run over all tenants.
use mathlib.Core.Path.{subst}
use estoque_saas.Base.{
  ℕ, suc, Bool, true, false, ◌≡◌, refl, ap, ◌∙◌, List, [], ◌∷◌, length, arith, Bool-cases, inl, inr,
  mem_nat, select, ◌==◌, ==_refl,
}
use estoque_saas.Shared.Transaction.{Result, ok, err, crash}
use estoque_saas.Billing.Rows.{BillingDb}
use estoque_saas.Billing.Charges.{
  ChargeProvider, generate_charge_for_tenant, generate_monthly_charges, Tally, counted, put,
}

abbrev pub AreDistinct : List ℕ → Type 0
AreDistinct [] = Unit
AreDistinct (t ∷ ts) = (mem_nat t ts ≡ false) × AreDistinct ts

abbrev pub is_generated : Result Bool → Bool
is_generated (ok b) = b
is_generated _ = false

abbrev pub is_skipped : Result Bool → Bool
is_skipped (ok true) = false
is_skipped (ok false) = true
is_skipped _ = false

abbrev pub is_thrown : Result Bool → Bool
is_thrown (ok b) = false
is_thrown _ = true

-- How many tenants have a charge, on their own rows alone, that ends like this.
abbrev pub ending : (Result Bool → Bool) → (ℕ → ChargeProvider) → (ℕ → BillingDb) → List ℕ → ℕ
ending test gateway rows tenants =
    length (select (λ t. test (generate_charge_for_tenant (gateway t) (rows t)).0) tenants)

module _ (gateway : ℕ → ChargeProvider) where
  ending-put :
      (test : Result Bool → Bool) (rows : ℕ → BillingDb) (t : ℕ) (after : BillingDb) (ts : List ℕ)
      → mem_nat t ts ≡ false
      → ending test gateway (put t after rows) ts ≡ ending test gateway rows ts
  ending-put test rows t after [] h = refl
  ending-put test rows t after (u ∷ us) h =
      let other : (t == u) ≡ false = ground (arith, h) in
      let rest = ending-put test rows t after us (ground (arith, h)) in
      rw other (elim (Bool-cases (test (generate_charge_for_tenant (gateway u) (rows u)).0)) [
        | inl e ↦ rw e (ap (λ (n : ℕ). suc n) rest)
        | inr e ↦ rw e rest
      ])

  run-others :
      (ts : List ℕ) (rows : ℕ → BillingDb) (t : ℕ)
      → mem_nat t ts ≡ false
      → (generate_monthly_charges gateway ts rows).1 t ≡ rows t
  unfolding generate_monthly_charges
  run-others [] rows t h = refl
  run-others (u ∷ us) rows t h =
      let other : (u == t) ≡ false = ground (arith, h) in
      run-others us _ t (ground (arith, h)) ∙ rw other refl

  run-own :
      (ts : List ℕ) (rows : ℕ → BillingDb)
      → AreDistinct ts
      → (t : ℕ) → mem_nat t ts ≡ true
      → (generate_monthly_charges gateway ts rows).1 t
        ≡ (generate_charge_for_tenant (gateway t) (rows t)).1
  unfolding generate_monthly_charges
  run-own [] rows d t h = cc
  run-own (u ∷ us) rows d t h =
      let after = (generate_charge_for_tenant (gateway u) (rows u)).1 in
      elim (Bool-cases (u == t)) [
        | inl e ↦
            let same : u ≡ t = ground (arith, e) in
            subst
              (λ x.
                (generate_monthly_charges gateway us (put u after rows)).1 x
                ≡ (generate_charge_for_tenant (gateway x) (rows x)).1)
              same (run-others us (put u after rows) u d.0 ∙ rw (==_refl u) refl)
        | inr e ↦ run-own us (put u after rows) d.1 t (ground (arith, h, e)) ∙ rw e refl
      ]

  abbrev Counts : Tally → List ℕ → (ℕ → BillingDb) → Type 0
  Counts tally ts rows =
      (tally.generated ≡ ending is_generated gateway rows ts)
      × (tally.skipped ≡ ending is_skipped gateway rows ts)
      × (tally.failed ≡ ending is_thrown gateway rows ts)

  counted-Counts :
      (t : ℕ) (ts : List ℕ) (rows : ℕ → BillingDb) (tally : Tally) (r : Result Bool)
      → (generate_charge_for_tenant (gateway t) (rows t)).0 ≡ r
      → Counts tally ts rows
      → Counts (counted r tally) (t ∷ ts) rows
  counted-Counts t ts rows tally (ok true) e h = rw e (ap (λ (n : ℕ). suc n) h.0, h.1, h.2)
  counted-Counts t ts rows tally (ok false) e h = rw e (h.0, ap (λ (n : ℕ). suc n) h.1, h.2)
  counted-Counts t ts rows tally (err c) e h = rw e (h.0, h.1, ap (λ (n : ℕ). suc n) h.2)
  counted-Counts t ts rows tally crash e h = rw e (h.0, h.1, ap (λ (n : ℕ). suc n) h.2)

  run-Counts :
      (ts : List ℕ) (rows : ℕ → BillingDb)
      → AreDistinct ts
      → Counts (generate_monthly_charges gateway ts rows).0 ts rows
  unfolding generate_monthly_charges
  run-Counts [] rows d = (refl, refl, refl)
  run-Counts (t ∷ ts) rows d =
      let after = (generate_charge_for_tenant (gateway t) (rows t)).1 in
      let rest = run-Counts ts (put t after rows) d.1 in
      counted-Counts t ts rows (generate_monthly_charges gateway ts (put t after rows)).0 _ refl (
        rest.0 ∙ ending-put is_generated rows t after ts d.0,
        rest.1 ∙ ending-put is_skipped rows t after ts d.0,
        rest.2 ∙ ending-put is_thrown rows t after ts d.0,
      )

-- A monthly run over tenants none of which is named twice. Each of them ends as a charge on its own
-- rows before the run leaves it, whatever the charges of the others do, and the rows of every other
-- tenant stay. The run counts as generated the tenants whose own charge is issued, as skipped those
-- for which none is due, and as failed those whose charge throws.
pub generate_monthly_charges_lem :
    (gateway : ℕ → ChargeProvider) (ts : List ℕ) (rows : ℕ → BillingDb)
    → AreDistinct ts
    → let run = generate_monthly_charges gateway ts rows in
      ((t : ℕ)
        → mem_nat t ts ≡ true
        → run.1 t ≡ (generate_charge_for_tenant (gateway t) (rows t)).1)
      × ((t : ℕ) → mem_nat t ts ≡ false → run.1 t ≡ rows t)
      × (run.0.generated ≡ ending is_generated gateway rows ts)
      × (run.0.skipped ≡ ending is_skipped gateway rows ts)
      × (run.0.failed ≡ ending is_thrown gateway rows ts)
generate_monthly_charges_lem gateway ts rows d =
    let counts = run-Counts gateway ts rows d in
    (run-own gateway ts rows d, λ t. run-others gateway ts rows t, counts.0, counts.1, counts.2)

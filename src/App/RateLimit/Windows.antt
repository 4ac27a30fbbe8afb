-- ===== src/App/RateLimit/Windows.antt =====
-- The limiter against its reference: a budget of attempts for each window.
use estoque_saas.Base.{
  ℕ, zero, suc, ◌+◌, ◌-◌, ◌≤◌, ◌<◌, ◌≡◌, refl, ap, ◌∙◌, Option, none, some, List, [], ◌∷◌, arith,
  or_else,
}
use estoque_saas.Shared.Errors.{rate_limited}
use estoque_saas.Shared.Transaction.{Result, ok, err}
use estoque_saas.App.RateLimit.{RateLimitRule, Redis, increment, judge, check_rate_limit, attempts}

-- The reference: a window grants a budget of attempts, and refuses all that come after.
abbrev pub grants : ℕ → List ℕ → List (Result (Unit {0}))
grants budget [] = []
grants zero (t ∷ ts) = err rate_limited ∷ grants zero ts
grants (suc budget) (t ∷ ts) = ok tt ∷ grants budget ts

-- Times in order, from one time on and before another.
abbrev pub InOrder : ℕ → ℕ → List ℕ → Type 0
InOrder from until [] = Unit
InOrder from until (t ∷ ts) = (from ≤ t) × (t < until) × InOrder t until ts

-- A key that has not been counted, or whose window is over.
pub record IsFresh (r : Redis) (rule : RateLimitRule) (now : ℕ) (s : r.State) : Type 0 where
  pub uncounted : r.count rule.key now s ≡ 0
  pub unbounded : r.deadline rule.key now s ≡ none

-- A key that has been counted so often at a time, in a window that ends at another.
pub record IsOpen (r : Redis) (rule : RateLimitRule) (n now d : ℕ) (s : r.State) : Type 0 where
  pub counted : r.count rule.key now s ≡ n
  pub bounded : r.deadline rule.key now s ≡ some d

module _ (r : Redis) (rule : RateLimitRule) (live : 0 < rule.window_ms) where
  later-IsOpen :
      (n now later d : ℕ) (s : r.State)
      → IsOpen r rule n now d s
      → now ≤ later
      → later < d
      → IsOpen r rule n later d s
  later-IsOpen n now later d s o h k =
      let kept = r.stays rule.key now later d s o.bounded h k in
      record { counted = kept.0 ∙ o.counted; bounded = kept.1 }

  -- An attempt in an open window.
  check-IsOpen :
      (n now d : ℕ) (s : r.State)
      → IsOpen r rule n now d s
      → ((check_rate_limit r rule now s).0 ≡ judge rule (some (suc n)))
        × IsOpen r rule (suc n) now d (check_rate_limit r rule now s).1
  unfolding check_rate_limit increment
  check-IsOpen n now d s o =
      let counted = r.incr rule.key now s in
      let count : r.count rule.key now counted.1 ≡ suc n =
        r.incr_count rule.key now s ∙ ap (λ (m : ℕ). suc m) o.counted in
      let kept : r.deadline rule.key now counted.1 ≡ some d =
        r.incr_deadline rule.key now s ∙ o.bounded in
      (
        ap (λ (m : ℕ). judge rule (some m))
            (r.incr_reply rule.key now s ∙ ap (λ (m : ℕ). suc m) o.counted),
        record {
          counted = r.pexpire_count rule.key rule.window_ms now counted.1 live ∙ count;
          bounded =
              r.pexpire_deadline rule.key rule.window_ms now counted.1 live (omega (arith, count))
              ∙ ap (λ (e : Option ℕ). some (or_else e (now + rule.window_ms))) kept;
        },
      )

  check-IsFresh :
      (now : ℕ) (s : r.State)
      → IsFresh r rule now s
      → ((check_rate_limit r rule now s).0 ≡ judge rule (some 1))
        × IsOpen r rule 1 now (now + rule.window_ms) (check_rate_limit r rule now s).1
  unfolding check_rate_limit increment
  check-IsFresh now s f =
      let counted = r.incr rule.key now s in
      let count : r.count rule.key now counted.1 ≡ 1 =
        r.incr_count rule.key now s ∙ ap (λ (m : ℕ). suc m) f.uncounted in
      let kept : r.deadline rule.key now counted.1 ≡ none =
        r.incr_deadline rule.key now s ∙ f.unbounded in
      (
        ap (λ (m : ℕ). judge rule (some m))
            (r.incr_reply rule.key now s ∙ ap (λ (m : ℕ). suc m) f.uncounted),
        record {
          counted = r.pexpire_count rule.key rule.window_ms now counted.1 live ∙ count;
          bounded =
              r.pexpire_deadline rule.key rule.window_ms now counted.1 live (omega (arith, count))
              ∙ ap (λ (e : Option ℕ). some (or_else e (now + rule.window_ms))) kept;
        },
      )

  judge_over : (n : ℕ) → rule.limit < n → judge rule (some n) ≡ err rate_limited
  unfolding judge
  judge_over n h = ground arith

  judge_under : (n : ℕ) → n ≤ rule.limit → judge rule (some n) ≡ ok tt
  unfolding judge
  judge_under n h = ground arith

  -- What is left of the budget after so many attempts.
  judge-grants :
      (budget n t : ℕ) (ts : List ℕ)
      → budget ≡ rule.limit - n
      → judge rule (some (suc n)) ∷ grants (rule.limit - suc n) ts ≡ grants budget (t ∷ ts)
  judge-grants zero n t ts e =
      let nothing : rule.limit - suc n ≡ 0 = omega arith in
      rw (judge_over (suc n) (omega arith), nothing) refl
  judge-grants (suc budget) n t ts e =
      let rest : rule.limit - suc n ≡ budget = omega arith in
      rw (judge_under (suc n) (omega arith), rest) refl

  attempts-IsOpen :
      (ts : List ℕ) (n now d : ℕ) (s : r.State)
      → IsOpen r rule n now d s
      → now < d
      → InOrder now d ts
      → ((attempts r rule ts s).0 ≡ grants (rule.limit - n) ts)
        × ((later : ℕ) → d ≤ later → IsFresh r rule later (attempts r rule ts s).1)
  unfolding attempts
  attempts-IsOpen [] n now d s o k h = (
    refl,
    λ later e.
        let gone = r.expires rule.key now later d s o.bounded (omega arith) e in
        record { uncounted = gone.0; unbounded = gone.1 },
  )
  attempts-IsOpen (t ∷ ts) n now d s o k h =
      let one = check-IsOpen n t d s (later-IsOpen n now t d s o h.0 h.1) in
      let rest = attempts-IsOpen ts (suc n) t d (check_rate_limit r rule t s).1 one.1 h.1 h.2 in
      (rw (one.0, rest.0) (judge-grants (rule.limit - n) n t ts refl), rest.1)

  -- From a key that is not counted, the attempts that come within one window of the first are let
  -- through up to the limit, in their order, and all later ones are refused with RATE_LIMITED;
  -- attempts in the window do not make it longer.
  pub attempts_within_window :
      (t : ℕ) (ts : List ℕ) (s : r.State)
      → IsFresh r rule t s
      → InOrder t (t + rule.window_ms) ts
      → (attempts r rule (t ∷ ts) s).0 ≡ grants rule.limit (t ∷ ts)
  unfolding attempts
  attempts_within_window t ts s f h =
      let one = check-IsFresh t s f in
      let rest = attempts-IsOpen ts 1 t _ (check_rate_limit r rule t s).1 one.1 (omega arith) h in
      rw (one.0, rest.0) (judge-grants rule.limit 0 t ts (omega arith))

  -- Whoever was refused is let through again: however many attempts came within a window, one that
  -- comes after the window has ended passes, if the limit allows any.
  pub attempts_reopen :
      (t : ℕ) (ts : List ℕ) (s : r.State) (later : ℕ)
      → IsFresh r rule t s
      → InOrder t (t + rule.window_ms) ts
      → t + rule.window_ms ≤ later
      → 0 < rule.limit
      → (check_rate_limit r rule later (attempts r rule (t ∷ ts) s).1).0 ≡ ok tt
  unfolding attempts judge
  attempts_reopen t ts s later f h k l =
      let one = check-IsFresh t s f in
      let rest = attempts-IsOpen ts 1 t _ (check_rate_limit r rule t s).1 one.1 (omega arith) h in
      (check-IsFresh later (attempts r rule (t ∷ ts) s).1 (rest.1 later k)).0 ∙ judge_under 1 l

-- ===== src/App/RateLimit.antt =====
-- services/app/src/lib/rate-limit.ts: attempts on a key, counted in fixed windows in Redis.
use estoque_saas.Base.{
  ℕ, zero, suc, ◌+◌, ◌≤◌, ◌<◌, ◌≡◌, Option, none, some, List, [], ◌∷◌, Text, ltb, or_else,
}
use estoque_saas.Shared.Errors.{rate_limited}
use estoque_saas.Shared.Transaction.{Result, ok, err, throw_if}
pub mod Windows

-- `RateLimitRule`
pub record RateLimitRule : Type 0 where
  pub key : Text
  pub limit : ℕ
  pub window_ms : ℕ

-- The commands of Redis that the store sends, at a time in milliseconds, and what can be observed of a
-- key at a time: its value as a number, 0 where the key is missing, and the time at which it expires.
-- The laws are those of the manual: INCR adds one to the value, that of a missing key being 0, and
-- keeps the expiry; PEXPIRE with NX sets the expiry of a key that has none, if it is to live for at
-- least a millisecond, and leaves any other; until its expiry a key stays as it is, and then it is missing.
pub record Redis : Type 1 where
  pub State : Type 0
  pub count : Text → ℕ → State → ℕ
  pub deadline : Text → ℕ → State → Option ℕ
  pub incr : Text → ℕ → State → ℕ × State
  pub pexpire_nx : Text → ℕ → ℕ → State → State
  pub incr_reply : (k : Text) (now : ℕ) (s : State) → (incr k now s).0 ≡ suc (count k now s)
  pub incr_count :
      (k : Text) (now : ℕ) (s : State) → count k now (incr k now s).1 ≡ suc (count k now s)
  pub incr_deadline :
      (k : Text) (now : ℕ) (s : State) → deadline k now (incr k now s).1 ≡ deadline k now s
  pub pexpire_count :
      (k : Text) (window now : ℕ) (s : State)
      → 0 < window
      → count k now (pexpire_nx k window now s) ≡ count k now s
  pub pexpire_deadline :
      (k : Text) (window now : ℕ) (s : State)
      → 0 < window
      → 0 < count k now s
      → deadline k now (pexpire_nx k window now s)
        ≡ some (or_else (deadline k now s) (now + window))
  pub stays :
      (k : Text) (now later d : ℕ) (s : State)
      → deadline k now s ≡ some d
      → now ≤ later
      → later < d
      → (count k later s ≡ count k now s) × (deadline k later s ≡ some d)
  pub expires :
      (k : Text) (now later d : ℕ) (s : State)
      → deadline k now s ≡ some d
      → now ≤ later
      → d ≤ later
      → (count k later s ≡ 0) × (deadline k later s ≡ none)

-- `RedisRateLimitStore.increment`: both commands in one MULTI, the reply to the first.
unfoldable pub increment : (r : Redis) → Text → ℕ → ℕ → r.State → ℕ × r.State
increment r key window_ms now s =
    let counted = r.incr key now s in (counted.0, r.pexpire_nx key window_ms now counted.1)

-- `checkRateLimit` on what the store answers; `none` is a store that throws, which lets all through.
unfoldable pub judge : RateLimitRule → Option ℕ → Result (Unit {0})
unfolding throw_if
judge rule none = ok tt
judge rule (some count) = (throw_if {S = Unit {0}} (ltb rule.limit count) rate_limited tt).0

-- `checkRateLimit` with Redis up.
unfoldable pub check_rate_limit :
    (r : Redis) → RateLimitRule → ℕ → r.State → Result (Unit {0}) × r.State
check_rate_limit r rule now s =
    let counted = increment r rule.key rule.window_ms now s in
    (judge rule (some counted.0), counted.1)

-- Attempts at the given times, one after another: what each is told, and the last state.
unfoldable pub attempts :
    (r : Redis) → RateLimitRule → List ℕ → r.State → List (Result (Unit {0})) × r.State
attempts r rule [] s = ([], s)
attempts r rule (t ∷ ts) s =
    let one = check_rate_limit r rule t s in
    let rest = attempts r rule ts one.1 in (one.0 ∷ rest.0, rest.1)

-- ===== src/App/Tests.antt =====
-- Attempts on a small store.
use estoque_saas.Base.{
  ℕ, suc, ◌+◌, ◌≤◌, ◌<◌, ◌≡◌, refl, Bool, true, Option, none, some, [], ◌∷◌, arith, ltb,
  if◌then◌else◌, or_else,
}
use estoque_saas.Shared.Transaction.{ok}
use estoque_saas.App.RateLimit.{RateLimitRule, Redis, check_rate_limit, attempts}
use estoque_saas.App.RateLimit.Windows.{grants, attempts_within_window, attempts_reopen}

-- One key: its value and its expiry.
abbrev Cell : Type 0
Cell = ℕ × Option ℕ

abbrev is_live : ℕ → Option ℕ → Bool
is_live now none = true
is_live now (some d) = ltb now d

abbrev seen : ℕ → Cell → Cell
seen now (n, d) = if is_live now d then (n, d) else (0, none)

abbrev bounded : ℕ → ℕ → Cell → Cell
bounded window now (n, d) = (n, if ltb 0 n then some (or_else d (now + window)) else none)

pexpire_deadline_cell :
    (window now n : ℕ) (d : Option ℕ)
    → 0 < window
    → 0 < (seen now (n, d)).0
    → (seen now (bounded window now (seen now (n, d)))).1
      ≡ some (or_else (seen now (n, d)).1 (now + window))
pexpire_deadline_cell window now n none h k = ground arith
pexpire_deadline_cell window now n (some d) h k = ground arith

pexpire_count_cell :
    (window now n : ℕ) (d : Option ℕ)
    → 0 < window
    → (seen now (bounded window now (seen now (n, d)))).0 ≡ (seen now (n, d)).0
pexpire_count_cell window now n none h = ground arith
pexpire_count_cell window now n (some d) h = ground arith

incr_cell :
    (now n : ℕ) (d : Option ℕ)
    → let (m, e) = seen now (n, d) in
      ((seen now (suc m, e)).0 ≡ suc m) × ((seen now (suc m, e)).1 ≡ e)
incr_cell now n none = ground arith
incr_cell now n (some d) = ground arith

stays_cell :
    (now later e n : ℕ) (d : Option ℕ)
    → (seen now (n, d)).1 ≡ some e
    → now ≤ later
    → later < e
    → ((seen later (n, d)).0 ≡ (seen now (n, d)).0) × ((seen later (n, d)).1 ≡ some e)
stays_cell now later e n none h k l = cc
stays_cell now later e n (some d) h k l = ground arith

expires_cell :
    (now later e n : ℕ) (d : Option ℕ)
    → (seen now (n, d)).1 ≡ some e
    → now ≤ later
    → e ≤ later
    → ((seen later (n, d)).0 ≡ 0) × ((seen later (n, d)).1 ≡ none)
expires_cell now later e n none h k l = cc
expires_cell now later e n (some d) h k l = ground arith

abbrev cell : Redis
cell = record {
  State = Cell;
  count = λ k now s. (seen now s).0;
  deadline = λ k now s. (seen now s).1;
  incr = λ k now s. let (n, d) = seen now s in (suc n, (suc n, d));
  pexpire_nx = λ k window now s. bounded window now (seen now s);
  incr_reply = λ k now s. refl;
  incr_count = λ k now s. (incr_cell now s.0 s.1).0;
  incr_deadline = λ k now s. (incr_cell now s.0 s.1).1;
  pexpire_count = λ k window now s h. pexpire_count_cell window now s.0 s.1 h;
  pexpire_deadline = λ k window now s h l. pexpire_deadline_cell window now s.0 s.1 h l;
  stays = λ k now later e s h l m. stays_cell now later e s.0 s.1 h l m;
  expires = λ k now later e s h l m. expires_cell now later e s.0 s.1 h l m;
}

abbrev twice : RateLimitRule
twice = record { key = 107 ∷ []; limit = 2; window_ms = 100 }

attempts_within_window_example :
    (attempts cell twice (5 ∷ 6 ∷ 6 ∷ 90 ∷ []) (0, none)).0 ≡ grants 2 (5 ∷ 6 ∷ 6 ∷ 90 ∷ [])
attempts_within_window_example =
    attempts_within_window cell twice (omega arith) 5 (6 ∷ 6 ∷ 90 ∷ []) (0, none)
      (record { uncounted = refl; unbounded = refl }) (omega arith)

attempts_reopen_example :
    (check_rate_limit cell twice 105 (attempts cell twice (5 ∷ 6 ∷ 6 ∷ 90 ∷ []) (0, none)).1).0
    ≡ ok tt
attempts_reopen_example =
    attempts_reopen cell twice (omega arith) 5 (6 ∷ 6 ∷ 90 ∷ []) (0, none) 105
      (record { uncounted = refl; unbounded = refl }) (omega arith) (omega arith) (omega arith)

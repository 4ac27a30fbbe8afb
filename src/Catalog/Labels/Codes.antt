-- ===== src/Catalog/Labels/Codes.antt =====
-- The check digit of EAN-13, and the codes that are reserved.
use estoque_saas.Base.{
  ℕ, zero, suc, ◌+◌, ◌-◌, ◌*◌, ◌%◌, ◌≤◌, ◌≡◌, ◌≢◌, ◌⊎◌, refl, inl, inr, Bool, true, false, not,
  some, List, [], ◌∷◌, ◌++◌, arith, Text, All, All-append, length, length-append, any, Bool-cases,
  if◌then◌else◌,
}
use estoque_saas.Stock.Rows.{Product}
use estoque_saas.Catalog.Labels.{weigh, make_ean13, has_barcode, reserve}

abbrev pub IsDigit : ℕ → Type 0
IsDigit c = (b'0' ≤ c) × (c ≤ b'9')

-- Thirteen digits whose weighted sum is a multiple of ten.
pub record IsEan13 (code : Text) : Type 0 where
  pub sized : length code ≡ 13
  pub digits : All IsDigit code
  pub balanced : weigh false code % 10 ≡ 0

-- Twelve digits, as the random number is drawn.
pub record IsDrawn (body : Text) : Type 0 where
  pub sized : length body ≡ 12
  pub digits : All IsDigit body

-- The weight at which a text goes on after another.
abbrev flip : Bool → Text → Bool
flip odd [] = odd
flip odd (c ∷ cs) = flip (not odd) cs

not-not : (b : Bool) → not (not b) ≡ b
not-not true = refl
not-not false = refl

flip_even : (n : ℕ) (odd : Bool) (a : Text) → length a ≡ n + n → flip odd a ≡ odd
flip_even zero odd [] h = refl
flip_even zero odd (c ∷ cs) h = absurd (omega (arith, h))
flip_even (suc n) odd [] h = refl
flip_even (suc n) odd (c ∷ []) h = absurd (omega (arith, h))
flip_even (suc n) odd (c ∷ d ∷ cs) h = rw (not-not odd) (flip_even n odd cs (omega (arith, h)))

weigh-append : (odd : Bool) (a b : Text) → weigh odd (a ++ b) ≡ weigh odd a + weigh (flip odd a) b
unfolding weigh
weigh-append odd [] b = omega arith
weigh-append odd (c ∷ cs) b = omega (arith, weigh-append (not odd) cs b)

make_ean13-IsEan13 : (body : Text) → IsDrawn body → IsEan13 (make_ean13 body)
unfolding make_ean13 weigh
make_ean13-IsEan13 body d =
    let sum = weigh false body in
    let check = b'0' + (10 - sum % 10) % 10 in
    record {
      sized = omega (arith, length-append body (check ∷ []), d.sized);
      digits = All-append IsDigit body (check ∷ []) d.digits (omega arith);
      balanced =
          rw (weigh-append false body (check ∷ []))
            (rw (flip_even 6 false body d.sized) (omega arith));
    }

digit_told :
    (w before d e after : ℕ)
    → (w ≡ 1) ⊎ (w ≡ 3)
    → IsDigit d
    → IsDigit e
    → (before + ((d - b'0') * w + after)) % 10 ≡ 0
    → (before + ((e - b'0') * w + after)) % 10 ≡ 0
    → d ≡ e
digit_told w before d e after (inl one) hd he p q =
    let p1 : (before + ((d - b'0') * 1 + after)) % 10 ≡ 0 = rw one at p in
    let q1 : (before + ((e - b'0') * 1 + after)) % 10 ≡ 0 = rw one at q in omega arith
digit_told w before d e after (inr three) hd he p q =
    let p3 : (before + ((d - b'0') * 3 + after)) % 10 ≡ 0 = rw three at p in
    let q3 : (before + ((e - b'0') * 3 + after)) % 10 ≡ 0 = rw three at q in omega arith

abbrev weight : Bool → ℕ
weight odd = if odd then 3 else 1

weight_of : (odd : Bool) → (weight odd ≡ 1) ⊎ (weight odd ≡ 3)
weight_of true = inr refl
weight_of false = inl refl

-- Two codes that differ in one digit are not both balanced.
digit_change :
    (a b : Text) (d e : ℕ)
    → IsDigit d
    → IsDigit e
    → weigh false (a ++ (d ∷ b)) % 10 ≡ 0
    → weigh false (a ++ (e ∷ b)) % 10 ≡ 0
    → d ≡ e
unfolding weigh
digit_change a b d e hd he p q =
    let odd = flip false a in
    digit_told (weight odd) (weigh false a) d e (weigh (not odd) b) (weight_of odd) hd he
      (rw (weigh-append false a (d ∷ b)) at p) (rw (weigh-append false a (e ∷ b)) at q)

All-middle : (a b : Text) (d : ℕ) → All IsDigit (a ++ (d ∷ b)) → IsDigit d
All-middle [] b d h = h.0
All-middle (c ∷ cs) b d h = All-middle cs b d h.1

-- A bar code made from twelve random digits has thirteen, and their sum with the weights 1 and 3 in
-- turn is a multiple of ten. To read one of its digits as another is noticed: what is read then is
-- not such a code.
pub make_ean13_lem :
    (body : Text)
    → IsDrawn body
    → IsEan13 (make_ean13 body)
      × ((a b : Text) (d e : ℕ) → make_ean13 body ≡ a ++ (d ∷ b) → d ≢ e → ¬ IsEan13 (a ++ (e ∷ b)))
make_ean13_lem body drawn =
    let code = make_ean13-IsEan13 body drawn in
    (
      code,
      λ a b d e is ne wrong. ne (
          digit_change a b d e (All-middle a b d (rw is at code.digits))
            (All-middle a b e wrong.digits) (rw is at code.balanced) wrong.balanced),
    )

-- A code that is reserved for a label is a bar code that no product has, deleted ones included.
pub reserve_lem :
    (draw : ℕ → Text) (n k : ℕ) (ps : List Product) (code : Text)
    → ((i : ℕ) → IsDrawn (draw i))
    → reserve draw n k ps ≡ some code
    → (any (has_barcode code) ps ≡ false) × IsEan13 code
unfolding reserve
reserve_lem draw zero k ps code h e = cc
reserve_lem draw (suc n) k ps code h e =
    elim (Bool-cases (any (has_barcode (make_ean13 (draw k))) ps)) [
      | inl taken ↦ reserve_lem draw n (suc k) ps code h (rw (taken, reserve) at e)
      | inr free ↦
          let same : make_ean13 (draw k) ≡ code = cc (rw (free, reserve) at e) in
          (rw (← same) free, rw (← same) (make_ean13-IsEan13 (draw k) (h k)))
    ]

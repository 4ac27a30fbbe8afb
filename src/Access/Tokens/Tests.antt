-- ===== src/Access/Tokens/Tests.antt =====
-- A signing without secrets, which shows that the rules of one can hold.
use estoque_saas.Base.{
  ℕ, ◌+◌, ◌-◌, ◌≡◌, ◌==◌, refl, false, Option, some, [], ◌∷◌, Text, arith, if◌then◌else◌,
}
use estoque_saas.Access.Tokens.{Payload, Claims, Signing, has_dot, claims_of}

-- A text written above the dot, a zero, and a rest.
abbrev pack : Text → Text → Text
pack [] rest = 0 ∷ rest
pack (c ∷ cs) rest = (c + 47) ∷ pack cs rest

abbrev first : Text → Text
first [] = []
first (c ∷ cs) = let more = first cs in if c == 0 then [] else (c - 47) ∷ more

abbrev others : Text → Text
others [] = []
others (c ∷ cs) = let more = others cs in if c == 0 then cs else more

first-pack : (t rest : Text) → first (pack t rest) ≡ t
first-pack [] rest = refl
first-pack (c ∷ cs) rest = ground (arith, first-pack cs rest)

others-pack : (t rest : Text) → others (pack t rest) ≡ rest
others-pack [] rest = refl
others-pack (c ∷ cs) rest = ground (arith, others-pack cs rest)

pack_dotless : (t rest : Text) → has_dot rest ≡ false → has_dot (pack t rest) ≡ false
pack_dotless [] rest h = ground arith
pack_dotless (c ∷ cs) rest h = ground (arith, pack_dotless cs rest)

abbrev number : Text → ℕ
number [] = 0
number (c ∷ cs) = c - 47

abbrev encode_plain : Payload → Text
encode_plain p = 49 ∷ pack p.tenant (pack p.user ((p.exp + 47) ∷ []))

abbrev body : Text → Text
body [] = []
body (c ∷ cs) = cs

abbrev decode_plain : Text → Option Claims
decode_plain t = some (record {
  tenant = some (first (body t));
  user = some (first (others (body t)));
  exp = some (number (others (others (body t))));
})

pub decode_plain-encode_plain : (p : Payload) → decode_plain (encode_plain p) ≡ some (claims_of p)
decode_plain-encode_plain p =
    let last : Text = (p.exp + 47) ∷ [] in
    let back : p.exp + 47 - 47 ≡ p.exp = omega arith in
    rw
      (
        first-pack p.tenant (pack p.user last),
        others-pack p.tenant (pack p.user last),
        first-pack p.user last,
        others-pack p.user last,
        back,
      )
      refl

pub encode_plain_dotless : (p : Payload) → has_dot (encode_plain p) ≡ false
encode_plain_dotless p =
    let last : has_dot ((p.exp + 47) ∷ []) ≡ false = ground arith in
    pack_dotless p.tenant (pack p.user ((p.exp + 47) ∷ []))
      (pack_dotless p.user ((p.exp + 47) ∷ []) last)

abbrev pub plain : Signing
plain = record {
  encode = encode_plain;
  decode = decode_plain;
  sign = λ t. 49 ∷ [];
  decode-encode = decode_plain-encode_plain;
  encode_dotless = encode_plain_dotless;
  encode_filled = λ p. refl;
  sign_dotless = λ t. refl;
  sign_filled = λ t. refl;
}

-- ===== src/Access/Tokens/Reading.antt =====
-- What is read back from a token.
use estoque_saas.Base.{◌≡◌, ◌++◌, refl, false, some, [], ◌∷◌, arith, Text, text_eq_iff}
use estoque_saas.Access.Tokens.{
  Payload, Signing, dot, has_dot, until_dot, after_dot, claims_of, make_token, read_token,
}

until_dot-append : (a b : Text) → has_dot a ≡ false → until_dot (a ++ (dot ∷ b)) ≡ a
until_dot-append [] b h = refl
until_dot-append (c ∷ cs) b h = ground (arith, until_dot-append cs b)

after_dot-append : (a b : Text) → has_dot a ≡ false → after_dot (a ++ (dot ∷ b)) ≡ b
after_dot-append [] b h = refl
after_dot-append (c ∷ cs) b h = ground (arith, after_dot-append cs b)

until_dot_self : (a : Text) → has_dot a ≡ false → until_dot a ≡ a
until_dot_self [] h = refl
until_dot_self (c ∷ cs) h = ground (arith, until_dot_self cs)

-- A token reads back as what it was made of.
pub read_token-make_token :
    (s : Signing) (p : Payload) → read_token s (make_token s p) ≡ some (claims_of p)
unfolding read_token make_token
read_token-make_token s p =
    let encoded = s.encode p in
    rw
      (
        until_dot-append encoded (s.sign encoded) (s.encode_dotless p),
        after_dot-append encoded (s.sign encoded) (s.encode_dotless p),
        until_dot_self (s.sign encoded) (s.sign_dotless encoded),
        s.encode_filled p,
        s.sign_filled encoded,
        (text_eq_iff (s.sign encoded) (s.sign encoded)).1 refl,
      )
      (s.decode-encode p)

-- ===== src/Access/Tokens.antt =====
-- The signed links and cookies of services/app/src/modules/auth (manager-pin.ts, invite.ts): a payload,
-- a dot, and the payload's signature.
use estoque_saas.Base.{
  ℕ, ◌≡◌, ◌==◌, ◌++◌, Bool, true, false, Option, none, some, List, [], ◌∷◌, Text, text_eq, any,
  truthy, if◌then◌else◌,
}
pub mod Reading
pub mod Tests

pub record Payload : Type 0 where
  pub tenant : Text
  pub user : Text
  pub exp : ℕ

-- What `JSON.parse` finds in a payload, whose fields may be missing.
pub record Claims : Type 0 where
  pub tenant : Option Text
  pub user : Option Text
  pub exp : Option ℕ

abbrev pub dot : ℕ
dot = b'.'

abbrev pub has_dot : Text → Bool
has_dot = any λ c. c == dot

abbrev pub claims_of : Payload → Claims
claims_of p = record { tenant = some p.tenant; user = some p.user; exp = some p.exp }

-- Node's functions as a module uses them: `encode` is the payload's JSON in base64url, `decode` reads
-- it back (`none` where it throws), and `sign` is the HMAC of a text under the secret and the module's
-- prefix, in hex or base64url. Neither alphabet has a dot, and neither result is empty.
pub record Signing : Type 0 where
  pub encode : Payload → Text
  pub decode : Text → Option Claims
  pub sign : Text → Text
  pub decode-encode : (p : Payload) → decode (encode p) ≡ some (claims_of p)
  pub encode_dotless : (p : Payload) → has_dot (encode p) ≡ false
  pub encode_filled : (p : Payload) → truthy (some (encode p)) ≡ true
  pub sign_dotless : (t : Text) → has_dot (sign t) ≡ false
  pub sign_filled : (t : Text) → truthy (some (sign t)) ≡ true

-- `token.split(".")`, its first part and its second.
abbrev pub until_dot : Text → Text
until_dot [] = []
until_dot (c ∷ cs) = let rest = until_dot cs in if c == dot then [] else c ∷ rest

abbrev pub after_dot : Text → Text
after_dot [] = []
after_dot (c ∷ cs) = let rest = after_dot cs in if c == dot then cs else rest

unfoldable pub make_token : Signing → Payload → Text
make_token s p = s.encode p ++ (dot ∷ s.sign (s.encode p))

-- The claims of a token with both parts and the right signature. A missing second part is as good as
-- an empty one.
unfoldable pub read_token : Signing → Text → Option Claims
read_token s token =
    let encoded = until_dot token in
    let signature = until_dot (after_dot token) in
    if truthy (some encoded)
    then if truthy (some signature)
      then if text_eq signature (s.sign encoded) then s.decode encoded else none
      else none
    else none

-- ===== src/Oauth/Env.antt =====
-- What the OAuth modules take from outside: the operating system's entropy, the hash functions of
-- `hashlib`, JSON text, and the signature layers of authlab/jose and authlab/crypto, which are
-- used through these calls alone.
use Prim.Native.Char.{Char}
use Prim.Native.String.{char_at}
use auth_lab.Prelude.{ℕ, ◌+◌, ◌*◌, ◌/◌, ◌%◌, String, Bool, Option, List, [], ◌∷◌, str_eq}
use auth_lab.Json.{Json, Fields}

pub record Env : Type 0 where
  -- `secrets.token_bytes(n)`: its answer at each draw
  pub token_bytes : ℕ → ℕ → List ℕ
  -- `secrets.choice` of eight letters, at each draw
  pub choose_letters : ℕ → String
  -- `hashlib.sha256` of an ASCII text
  pub sha256 : String → List ℕ
  -- `json.loads`, with `none` for a text that is no JSON
  pub json_loads : String → Option Json
  -- `b64u_decode(segment)`, with `none` for a segment that raises
  pub b64u_decode : String → Option (List ℕ)
  -- `b64u_json(segment)`
  pub b64u_json : String → Option Json
  -- `JWS.sign(claims, signing_key, RS256, kid=…, typ=…)`
  pub jws_sign : Fields → String → String → String
  -- the payload of `JWS.verify(token, JWKSet.from_json(jwks).resolver(), [RS256])`
  pub jws_verify : String → Json → Option String
  -- `str(x)` of a JSON value that is no text
  pub py_str : Json → String
  -- `JWK.thumbprint` of an EC key
  pub thumbprint : Fields → String
  -- `is_on_curve` of the point that a JWK's `x` and `y` encode, with `none` where decoding raises
  pub is_on_curve : String → String → Option Bool
  -- `ecdsa_verify` under that point, of a text and a raw signature
  pub ecdsa_verify : String → String → String → List ℕ → Bool

abbrev digit : ℕ → Char
digit n = char_at "ABCDEFGHIJKLMNOPQRSTUVWXYZabcdefghijklmnopqrstuvwxyz0123456789-_" n

-- `b64u_encode` of authlab/util/encoding.py: three bytes are four digits, no padding.
unfoldable pub b64u_encode : List ℕ → String
b64u_encode [] = ""
b64u_encode (a ∷ []) = String.◌∷◌ (digit (a / 4)) (String.◌∷◌ (digit (a % 4 * 16)) "")
b64u_encode (a ∷ b ∷ []) =
    String.◌∷◌ (digit (a / 4))
      (String.◌∷◌ (digit (a % 4 * 16 + b / 16)) (String.◌∷◌ (digit (b % 16 * 4)) ""))
b64u_encode (a ∷ b ∷ c ∷ bytes) = String.◌∷◌ (digit (a / 4)) (
    String.◌∷◌ (digit (a % 4 * 16 + b / 16))
      (String.◌∷◌ (digit (b % 16 * 4 + c / 64)) (String.◌∷◌ (digit (c % 64)) (b64u_encode bytes))))

-- `random_token(n_bytes)` of authlab/util/ct.py, at the `i`-th draw
unfoldable pub random_token : Env → ℕ → ℕ → String
unfolding b64u_encode
random_token env i n_bytes = b64u_encode (env.token_bytes i n_bytes)

-- `constant_time_equals` of two texts: the comparison of their UTF-8 is that of the texts.
abbrev pub constant_time_equals : String → String → Bool
constant_time_equals a b = str_eq a b

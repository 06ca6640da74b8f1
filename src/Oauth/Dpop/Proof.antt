-- ===== src/Oauth/Dpop/Proof.antt =====
-- What `verify` reads in a proof, before it looks at what was seen: decoding, the key, the signature,
-- and the request that the proof is for.
use Prim.Native.String.{◌++◌}
use Prim.Native.Char.{code}
use auth_lab.Prelude.{
  ℕ, String, Bool, true, false, Option, none, some, List, [], ◌∷◌, ltb, ◌==◌, ◌&&◌, not, str_eq,
}
use auth_lab.Prelude.Text.{is_nonempty}
use auth_lab.Prelude.Int.{abs_diff}
use auth_lab.Json.{Json, str, obj, Fields, member, as_str, as_int}
use auth_lab.Url.{urlsplit, upper, lower, unsplit_base}
use auth_lab.Oauth.Env.{Env}
use auth_lab.Oauth.Errors.{
  oauth, invalid_dpop_proof, Result, ok, err, other, or_raise, refuse_if, ◌>>=◌, ◌>>◌,
}

-- `proof.split(".")`
unfoldable pub split_dots : String → List String
split_dots String.[] = "" ∷ []
split_dots (String.◌∷◌ c s) = cut (code c == b'.') (split_dots s)
  where
    grow : List String → List String
    grow [] = []
    grow (w ∷ ws) = String.◌∷◌ c w ∷ ws

    cut : Bool → List String → List String
    cut true ws = "" ∷ ws
    cut false ws = grow ws

-- `normalize_htu`: the URL without query and fragment, scheme and host in lower case
unfoldable pub normalize_htu : String → Result String
unfolding urlsplit lower unsplit_base
normalize_htu url = elim (urlsplit url) [
  | none ↦ err (other "ValueError")
  | some parts ↦ ok (unsplit_base (lower parts.scheme) (lower parts.netloc) parts.path)
]

-- `payload.get(name, default)` where a method of `str` is called on the answer
abbrev pub text_or : String → Option Json → Result String
text_or default none = ok default
text_or default (some (str s)) = ok s
text_or default (some _) = err (other "AttributeError")

-- `json.loads` of a segment whose `get` is called next
abbrev pub object : Json → Result Fields
object (obj o) = ok o
object _ = err (other "AttributeError")

-- `==` of a member and a text
abbrev pub is_text : Option Json → String → Bool
is_text (some (str s)) t = str_eq s t
is_text _ t = false

abbrev pub is_none {ℓ} : {A : Type ℓ} → Option A → Bool
is_none none = true
is_none (some _) = false

-- `data["x"]` with `KeyError` caught, then `b64u_decode_int` of a text
abbrev pub coordinate : Option Json → Result String
coordinate none = err (oauth invalid_dpop_proof)
coordinate (some (str s)) = ok s
coordinate (some _) = err (other "TypeError")

-- `is_on_curve` behind a decoding that may raise
abbrev pub on_curve : Option Bool → Result (Unit {0})
on_curve none = err (other "ValueError")
on_curve (some b) = refuse_if (not b) invalid_dpop_proof

pub record Key : Type 0 where
  pub x : String
  pub y : String

-- `ec_public_from_jwk`
unfoldable pub ec_public_from_jwk : Env → Fields → Result Key
ec_public_from_jwk env jwk = do
  refuse_if (not (is_text (member "kty" jwk) "EC" && is_text (member "crv" jwk) "P-256"))
      invalid_dpop_proof
  refuse_if (not (is_none (member "d" jwk))) invalid_dpop_proof
  x ← coordinate (member "x" jwk)
  y ← coordinate (member "y" jwk)
  on_curve (env.is_on_curve x y)
  ok (record { x = x; y = y })

-- The three segments of a proof, decoded.
pub record Opened : Type 0 where
  pub header : Json
  pub payload : Json
  pub signature : List ℕ
  pub signing_input : String

-- The first lines of `verify`: whatever goes wrong in decoding is the protocol's error.
unfoldable pub open_segments : Env → List String → Result Opened
open_segments env (h ∷ p ∷ g ∷ []) = do
  header ← or_raise (env.b64u_json h) invalid_dpop_proof
  payload ← or_raise (env.b64u_json p) invalid_dpop_proof
  signature ← or_raise (env.b64u_decode g) invalid_dpop_proof
  ok (record {
    header = header;
    payload = payload;
    signature = signature;
    signing_input = h ++ ("." ++ p);
  })
open_segments env _ = err (oauth invalid_dpop_proof)

abbrev pub jwk_of : Option Json → Result Fields
jwk_of none = err (oauth invalid_dpop_proof)
jwk_of (some j) = object j

-- The header's checks, down to the signature; the answer is the proof's key.
unfoldable pub check_header : Env → Opened → Result Fields
check_header env p = do
  header ← object p.header
  refuse_if (not (is_text (member "typ" header) "dpop+jwt")) invalid_dpop_proof
  refuse_if (not (is_text (member "alg" header) "ES256")) invalid_dpop_proof
  jwk ← jwk_of (member "jwk" header)
  key ← ec_public_from_jwk env jwk
  refuse_if (not (env.ecdsa_verify key.x key.y p.signing_input p.signature)) invalid_dpop_proof
  ok jwk

-- The checks of the request that the proof is for and of its age; the answer is its `jti`.
unfoldable pub check_payload : ℕ → ℕ → String → String → Fields → Result String
check_payload max_age now method url payload = do
  htm ← text_or "" (member "htm" payload)
  refuse_if (not (str_eq (upper htm) (upper method))) invalid_dpop_proof
  htu ← normalize_htu url
  refuse_if (not (is_text (member "htu" payload) htu)) invalid_dpop_proof
  iat ← or_raise (as_int (member "iat" payload)) invalid_dpop_proof
  refuse_if (ltb max_age (abs_diff now iat)) invalid_dpop_proof
  jti ← or_raise (as_str (member "jti" payload)) invalid_dpop_proof
  refuse_if (not (is_nonempty jti)) invalid_dpop_proof
  ok jti

-- What a proof says, once its signature is known to be that of the key in its header: the key and
-- the payload.
unfoldable pub open_proof : Env → String → Result (Fields × Fields)
open_proof env proof = do
  refuse_if (not (is_nonempty proof)) invalid_dpop_proof
  p ← open_segments env (split_dots proof)
  jwk ← check_header env p
  payload ← object p.payload
  ok (jwk, payload)

-- `verify`, down to `_purge`: the key, the payload and the `jti`
unfoldable pub check_proof :
    Env → ℕ → ℕ → String → String → String → Result (Fields × Fields × String)
check_proof env max_age now proof method url = do
  r ← open_proof env proof
  jti ← check_payload max_age now method url r.1
  ok (r.0, r.1, jti)

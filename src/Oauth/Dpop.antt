-- ===== src/Oauth/Dpop.antt =====
-- authlab/oauth/dpop.py, the server side: a proof is checked and its `jti` is remembered. The
-- clock is read once per call and passed as `now`.
pub mod Proof
pub mod Members
pub mod Fresh
pub mod Signed
pub mod Replay
use Prim.Native.String.{◌++◌}
use Prim.Native.Char.{code}
use auth_lab.Prelude.{
  ℕ, ◌+◌, ◌*◌, String, Bool, true, false, Option, none, some, List, [], ◌∷◌, ltb, ◌==◌, ◌&&◌, not,
  str_eq, if◌then◌else◌,
}
use auth_lab.Prelude.Text.{is_nonempty}
use auth_lab.Prelude.Int.{ℤ, abs_diff}
use auth_lab.Dict.{Dict, has, set, drop_values}
use auth_lab.Json.{Json, str, obj, Fields, member, as_str, as_int}
use auth_lab.Url.{urlsplit, upper, lower, unsplit_base}
use auth_lab.Oauth.Env.{Env, random_token, b64u_encode, constant_time_equals}
use auth_lab.Oauth.Errors.{
  oauth, invalid_dpop_proof, use_dpop_nonce, Result, ok, err, other, or_raise, refuse_if, ◌>>=◌,
  ◌>>◌,
}
use auth_lab.Oauth.Exec.{Exec}
unfoldable pub use Proof.*

pub record DPoPVerifier : Type 0 where
  pub max_age : ℕ
  pub require_nonce : Bool
  pub seen : Dict ℕ
  pub current_nonce : Option String

abbrev text_of : Env → Json → String
text_of env (str s) = s
text_of env j = env.py_str j

abbrev matches_nonce : Env → Json → Option String → Bool
matches_nonce env supplied none = false
matches_nonce env supplied (some nonce) = constant_time_equals (text_of env supplied) nonce

unfoldable pub check_nonce : Env → DPoPVerifier → Fields → Result (Unit {0})
check_nonce env v payload =
    if v.require_nonce
    then (do
      supplied ← or_raise (member "nonce" payload) use_dpop_nonce
      refuse_if (not (matches_nonce env supplied v.current_nonce)) use_dpop_nonce)
    else ok tt

-- `access_token_hash`
abbrev pub access_token_hash : Env → String → String
access_token_hash env access_token = b64u_encode (env.sha256 access_token)

unfoldable pub check_ath : Env → Option String → Fields → Result (Unit {0})
check_ath env none payload = ok tt
check_ath env (some access_token) payload = do
  ath ← or_raise (member "ath" payload) invalid_dpop_proof
  refuse_if (not (constant_time_equals (text_of env ath) (access_token_hash env access_token)))
      invalid_dpop_proof

unfoldable pub check_binding : Option String → String → Result (Unit {0})
check_binding none thumbprint = ok tt
check_binding (some expected) thumbprint =
    refuse_if (not (constant_time_equals thumbprint expected)) invalid_dpop_proof

-- `_purge`
unfoldable pub purge : ℕ → DPoPVerifier → DPoPVerifier
purge now v = record v { seen = drop_values (λ exp. ltb exp now) v.seen }

-- The last lines of `verify`, behind `_purge`.
unfoldable pub remember :
    Env → ℕ → Fields → Fields → String → Option String → Option String → Exec DPoPVerifier String
remember env now jwk payload jti access_token expected_jkt v = elim (has v.seen jti) [
  | true ↦ (err (oauth invalid_dpop_proof), v)
  | false ↦
      elim (do
        check_nonce env v payload
        check_ath env access_token payload
        check_binding expected_jkt (env.thumbprint jwk)) [
          | err e ↦ (err e, v)
          | ok _ ↦
              (ok (env.thumbprint jwk), record v { seen = set v.seen jti (now + v.max_age * 2) })
        ]
]

-- `verify` from `_purge` on, for a proof that passed the checks above it
unfoldable pub admit :
    Env
    → ℕ
    → Option String
    → Option String
    → Result (Fields × Fields × String)
    → Exec DPoPVerifier String
admit env now access_token expected_jkt (ok (jwk, payload, jti)) v =
    remember env now jwk payload jti access_token expected_jkt (purge now v)
admit env now access_token expected_jkt (err e) v = (err e, v)

-- `DPoPVerifier.verify`
unfoldable pub verify :
    Env → ℕ → String → String → String → Option String → Option String → Exec DPoPVerifier String
verify env now proof method url access_token expected_jkt v =
    admit env now access_token expected_jkt (check_proof env v.max_age now proof method url) v

-- `issue_nonce`, at the `i`-th draw
unfoldable pub issue_nonce : Env → ℕ → DPoPVerifier → DPoPVerifier × String
issue_nonce env i v =
    let nonce = random_token env i 16 in (record v { current_nonce = some nonce }, nonce)

-- ===== src/Oauth/Errors.antt =====
-- authlab/oauth/errors.py, and methods that may raise: an exception class is a constructor, its
-- text for people is left out. State that was written before a raise stays written.
use auth_lab.Prelude.{ℕ, String, Bool, true, false, Option, none, some, ◌≡◌, refl, arith}

pub data OAuthError : Type 0 where
  invalid_request invalid_request_object invalid_request_uri invalid_authorization_details
        invalid_authorization_response invalid_client invalid_grant unauthorized_client
        unsupported_grant_type invalid_scope access_denied unsupported_response_type server_error
        authorization_pending slow_down expired_token invalid_target invalid_dpop_proof
        use_dpop_nonce :
      OAuthError

-- The code on the wire.
unfoldable pub error : OAuthError → String
error OAuthError.invalid_request = "invalid_request"
error OAuthError.invalid_request_object = "invalid_request_object"
error OAuthError.invalid_request_uri = "invalid_request_uri"
error OAuthError.invalid_authorization_details = "invalid_authorization_details"
error OAuthError.invalid_authorization_response = "invalid_authorization_response"
error OAuthError.invalid_client = "invalid_client"
error OAuthError.invalid_grant = "invalid_grant"
error OAuthError.unauthorized_client = "unauthorized_client"
error OAuthError.unsupported_grant_type = "unsupported_grant_type"
error OAuthError.invalid_scope = "invalid_scope"
error OAuthError.access_denied = "access_denied"
error OAuthError.unsupported_response_type = "unsupported_response_type"
error OAuthError.server_error = "server_error"
error OAuthError.authorization_pending = "authorization_pending"
error OAuthError.slow_down = "slow_down"
error OAuthError.expired_token = "expired_token"
error OAuthError.invalid_target = "invalid_target"
error OAuthError.invalid_dpop_proof = "invalid_dpop_proof"
error OAuthError.use_dpop_nonce = "use_dpop_nonce"

-- The HTTP status.
unfoldable pub status : OAuthError → ℕ
status OAuthError.invalid_client = 401
status OAuthError.server_error = 500
status _ = 400

-- What a call may raise: an error of the protocol, or another Python exception by its class.
pub data Exception : Type 0 where
  oauth : OAuthError → Exception
  other : String → Exception

pub data Result {ℓ} (A : Type ℓ) : Type ℓ where
  ok : A → Result A
  err : Exception → Result A

abbrev pub or_raise {ℓ} : {A : Type ℓ} → Option A → OAuthError → Result A
or_raise none e = err (oauth e)
or_raise (some a) e = ok a

-- `if bad: raise e`
abbrev pub refuse_if : Bool → OAuthError → Result (Unit {0})
refuse_if true e = err (oauth e)
refuse_if false e = ok tt

-- Chains of checks that write nothing.
module _ {ℓ κ} {A : Type ℓ} {B : Type κ} where
  infixl 5 ◌>>=◌
  abbrev pub ◌>>=◌ : Result A → (A → Result B) → Result B
  ok x >>= next = next x
  err raised >>= next = err raised

  -- What is known of a chain that did not raise.
  pub >>=-eq-ok :
      (first : Result A) (next : A → Result B) {y : B}
      → (first >>= next) ≡ ok y
      → (x : A) × (first ≡ ok x) × (next x ≡ ok y)
  >>=-eq-ok (ok x) next done = (x, refl, done)
  >>=-eq-ok (err raised) next done = cc

-- One check, and what comes behind it.
infixl 5 ◌>>◌
abbrev pub ◌>>◌ {κ} : {B : Type κ} → Result (Unit {0}) → Result B → Result B
check >> next = check >>= λ _. next

pub >>-eq-ok {κ} :
    {B : Type κ} (m : Result (Unit {0})) (k : Result B) {b : B}
    → (m >> k) ≡ ok b
    → (m ≡ ok tt) × (k ≡ ok b)
>>-eq-ok (ok tt) k h = (refl, h)
>>-eq-ok (err e) k h = cc

pub or_raise-eq-ok {ℓ} :
    {A : Type ℓ} (o : Option A) (e : OAuthError) {a : A} → or_raise o e ≡ ok a → o ≡ some a
or_raise-eq-ok o e h = ground arith

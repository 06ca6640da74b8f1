-- ===== src/Oauth/Pkce.antt =====
-- authlab/oauth/pkce.py: the check of a code verifier against the stored challenge.
pub mod Shape
pub mod Binding
use Prim.Native.Char.{code}
use auth_lab.Prelude.{
  ℕ, suc, String, Bool, true, false, ◌&&◌, ◌||◌, not, leb, ◌==◌, str_eq, if◌then◌else◌,
}
use auth_lab.Prelude.Text.{is_nonempty}
use auth_lab.Oauth.Env.{Env, b64u_encode, random_token, constant_time_equals}
use auth_lab.Oauth.Errors.{
  invalid_request, invalid_grant, Result, ok, err, oauth, refuse_if, ◌>>=◌, ◌>>◌,
}

-- `[A-Za-z0-9\-._~]`
abbrev pub is_unreserved : ℕ → Bool
is_unreserved c =
    leb b'A' c && leb c b'Z'
    || leb b'a' c && leb c b'z'
    || leb b'0' c && leb c b'9'
    || c == b'-'
    || c == b'.'
    || c == b'_'
    || c == b'~'

-- The characters of `^[…]{43,128}$`, from `n` characters on. `$` also matches in front of a line
-- end that is the text's last character.
unfoldable pub matches_from : ℕ → String → Bool
matches_from n String.[] = leb 43 n && leb n 128
matches_from n (String.◌∷◌ c s) =
    is_unreserved (code c) && matches_from (suc n) s
    || code c == 10 && not (is_nonempty s) && leb 43 n && leb n 128

-- `VERIFIER_PATTERN.match(verifier)`
unfoldable pub matches_pattern : String → Bool
unfolding matches_from
matches_pattern = matches_from 0

-- `create_verifier`, at the `i`-th draw
unfoldable pub create_verifier : Env → ℕ → String
create_verifier env i = random_token env i 32

-- `create_challenge`
unfoldable pub create_challenge : Env → String → String → Result String
create_challenge env verifier method =
    if str_eq method "S256"
    then ok (b64u_encode (env.sha256 verifier))
    else if str_eq method "plain"
    then ok verifier
    else err (oauth invalid_request)

-- `verify`
unfoldable pub verify : Env → String → String → String → Bool → Result (Unit {0})
unfolding create_challenge
verify env verifier challenge method allow_plain = do
  refuse_if (str_eq method "plain" && not allow_plain) invalid_request
  refuse_if (not (is_nonempty verifier) || not (matches_pattern verifier)) invalid_grant
  derived ← create_challenge env verifier method
  refuse_if (not (constant_time_equals derived challenge)) invalid_grant

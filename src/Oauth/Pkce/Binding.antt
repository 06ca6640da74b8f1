-- ===== src/Oauth/Pkce/Binding.antt =====
-- What PKCE binds a code to.
use auth_lab.Prelude.{String, ◌≡◌, ◌↔◌, true, false, refl, arith, eq_iff, eq_refl}
use auth_lab.Oauth.Env.{Env, b64u_encode}
use auth_lab.Oauth.Errors.{ok}
use auth_lab.Oauth.Pkce.{verify, matches_pattern, matches_from}
use auth_lab.Oauth.Pkce.Shape.{IsVerifier, matches_pattern_iff}
use auth_lab.Prelude.Text.{is_nonempty}

matches_pattern-nonempty : (s : String) → matches_pattern s ≡ true → is_nonempty s ≡ true
unfolding matches_pattern matches_from
matches_pattern-nonempty String.[] h = cc
matches_pattern-nonempty (String.◌∷◌ c s) h = refl

-- A verifier is accepted, with `plain` refused, exactly if the method is S256, the encoded hash
-- of the verifier is the challenge, and the verifier is 43 to 128 characters, each a letter, a
-- digit or one of `-._~`, with one line feed behind them or none.
pub verify_iff :
    (env : Env) (verifier challenge method : String)
    → (verify env verifier challenge method false ≡ ok tt)
      ↔ ((method ≡ "S256") × IsVerifier verifier × (b64u_encode (env.sha256 verifier) ≡ challenge))
unfolding verify
verify_iff env verifier challenge method = (
  λ h. (
    ground (arith, eq_iff method "S256", eq_iff method "plain"),
    (matches_pattern_iff verifier).0 (ground arith),
    ground (
      arith,
      eq_iff method "S256",
      eq_iff method "plain",
      eq_iff (b64u_encode (env.sha256 verifier)) challenge,
    ),
  ),
  λ (is_s256, shaped, bound).
      let well_formed = (matches_pattern_iff verifier).1 shaped in
      rw (is_s256, ← bound)
        (ground (
          arith,
          well_formed,
          matches_pattern-nonempty verifier well_formed,
          eq_refl (b64u_encode (env.sha256 verifier)),
        )),
)

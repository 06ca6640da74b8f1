-- ===== src/Oauth/Dpop/Signed.antt =====
-- What a DPoP proof that passes its checks is: a signature by the key that it carries
-- (authlab/oauth/dpop.py).
use Prim.Native.String.{◌++◌}
use auth_lab.Prelude.{
  ℕ, String, ◌≡◌, refl, ap, subst, sym, ◌∙◌, true, ◌&&◌, not, none, some, List, [], ◌∷◌, arith,
}
use auth_lab.Prelude.Text.{is_nonempty}
use auth_lab.Json.{str, obj, Fields, member}
use auth_lab.Oauth.Env.{Env}
use auth_lab.Oauth.Errors.{
  ok, or_raise, or_raise-eq-ok, refuse_if, invalid_dpop_proof, >>=-eq-ok, >>-eq-ok,
}
use auth_lab.Oauth.Dpop.Members.{
  is_text-str, object-obj, coordinate-str, jwk_of-obj, on_curve-true, is_none-none,
}
use auth_lab.Oauth.Dpop.Proof.{
  is_text, is_none, split_dots, object, coordinate, on_curve, jwk_of, Key, ec_public_from_jwk,
  Opened, open_segments, check_header, open_proof, check_payload, check_proof,
}

-- The proof is three segments, of which the last is a signature of the others by the key `jwk`, whose
-- coordinates are a point of the curve, and which has no private part; the header names that key, its
-- purpose and the algorithm.
pub record IsSigned (env : Env) (proof : String) (jwk payload : Fields) : Type 0 where
  pub head : String
  pub body : String
  pub tail : String
  pub header : Fields
  pub signature : List ℕ
  pub x : String
  pub y : String
  pub segments : split_dots proof ≡ head ∷ body ∷ tail ∷ []
  pub decoded : env.b64u_json head ≡ some (obj header)
  pub says : env.b64u_json body ≡ some (obj payload)
  pub signs : env.b64u_decode tail ≡ some signature
  pub purpose : member "typ" header ≡ some (str "dpop+jwt")
  pub algorithm : member "alg" header ≡ some (str "ES256")
  pub named : member "jwk" header ≡ some (obj jwk)
  pub x_of : member "x" jwk ≡ some (str x)
  pub y_of : member "y" jwk ≡ some (str y)
  pub no_private : member "d" jwk ≡ none
  pub curve : env.is_on_curve x y ≡ some true
  pub verified : env.ecdsa_verify x y (head ++ ("." ++ body)) signature ≡ true

ec_public_from_jwk-ok :
    (env : Env) (jwk : Fields) {key : Key}
    → ec_public_from_jwk env jwk ≡ ok key
    → (member "d" jwk ≡ none)
      × (member "x" jwk ≡ some (str key.x))
      × (member "y" jwk ≡ some (str key.y))
      × (env.is_on_curve key.x key.y ≡ some true)
unfolding ec_public_from_jwk
ec_public_from_jwk-ok env jwk {key} h =
    let (_, h1) =
      >>-eq-ok
        (refuse_if (not (is_text (member "kty" jwk) "EC" && is_text (member "crv" jwk) "P-256"))
          invalid_dpop_proof)
        _ h in
    let (public, h2) =
      >>-eq-ok (refuse_if (not (is_none (member "d" jwk))) invalid_dpop_proof) _ h1 in
    let (x, ex, h3) = >>=-eq-ok (coordinate (member "x" jwk)) _ h2 in
    let (y, ey, h4) = >>=-eq-ok (coordinate (member "y" jwk)) _ h3 in
    let (curve, h5) = >>-eq-ok (on_curve (env.is_on_curve x y)) _ h4 in
    let same : record { x = x; y = y } ≡ key = ground arith in
    subst
      (λ k.
        (member "d" jwk ≡ none)
        × (member "x" jwk ≡ some (str k.x))
        × (member "y" jwk ≡ some (str k.y))
        × (env.is_on_curve k.x k.y ≡ some true))
      same
      (
        is_none-none (member "d" jwk) (ground arith),
        coordinate-str (member "x" jwk) ex,
        coordinate-str (member "y" jwk) ey,
        on_curve-true (env.is_on_curve x y) curve,
      )

-- The header's checks, read backwards.
check_header-ok :
    (env : Env) (p : Opened) {jwk : Fields}
    → check_header env p ≡ ok jwk
    → (header : Fields) × (x : String) × (y : String) × (p.header ≡ obj header)
      × (member "typ" header ≡ some (str "dpop+jwt"))
      × (member "alg" header ≡ some (str "ES256"))
      × (member "jwk" header ≡ some (obj jwk))
      × (member "d" jwk ≡ none)
      × (member "x" jwk ≡ some (str x))
      × (member "y" jwk ≡ some (str y))
      × (env.is_on_curve x y ≡ some true)
      × (env.ecdsa_verify x y p.signing_input p.signature ≡ true)
unfolding check_header
check_header-ok env p {jwk} h =
    let (header, e1, h1) = >>=-eq-ok (object p.header) _ h in
    let (e2, h2) =
      >>-eq-ok (refuse_if (not (is_text (member "typ" header) "dpop+jwt")) invalid_dpop_proof) _
        h1 in
    let (e3, h3) =
      >>-eq-ok (refuse_if (not (is_text (member "alg" header) "ES256")) invalid_dpop_proof) _ h2 in
    let (named, e4, h4) = >>=-eq-ok (jwk_of (member "jwk" header)) _ h3 in
    let (key, e5, h5) = >>=-eq-ok (ec_public_from_jwk env named) _ h4 in
    let (e6, h6) =
      >>-eq-ok
        (refuse_if (not (env.ecdsa_verify key.x key.y p.signing_input p.signature))
          invalid_dpop_proof)
        _ h5 in
    let same : named ≡ jwk = ground arith in
    let (public, is_x, is_y, curve) = ec_public_from_jwk-ok env named e5 in
    (
      header,
      key.x,
      key.y,
      object-obj p.header e1,
      is_text-str (member "typ" header) "dpop+jwt" (ground arith),
      is_text-str (member "alg" header) "ES256" (ground arith),
      jwk_of-obj (member "jwk" header) e4 ∙ ap (λ j. some (obj j)) same,
      subst (λ j. member "d" j ≡ none) same public,
      subst (λ j. member "x" j ≡ some (str key.x)) same is_x,
      subst (λ j. member "y" j ≡ some (str key.y)) same is_y,
      curve,
      ground arith,
    )

open_segments-ok :
    (env : Env) (ws : List String) {p : Opened}
    → open_segments env ws ≡ ok p
    → (h : String) × (b : String) × (t : String) × (ws ≡ h ∷ b ∷ t ∷ [])
      × (env.b64u_json h ≡ some p.header)
      × (env.b64u_json b ≡ some p.payload)
      × (env.b64u_decode t ≡ some p.signature)
      × (p.signing_input ≡ h ++ ("." ++ b))
unfolding open_segments
open_segments-ok env (h ∷ b ∷ t ∷ []) {p} e =
    let (header, e1, h1) = >>=-eq-ok (or_raise (env.b64u_json h) invalid_dpop_proof) _ e in
    let (payload, e2, h2) = >>=-eq-ok (or_raise (env.b64u_json b) invalid_dpop_proof) _ h1 in
    let (signature, e3, h3) = >>=-eq-ok (or_raise (env.b64u_decode t) invalid_dpop_proof) _ h2 in
    let opened : record {
      header = header;
      payload = payload;
      signature = signature;
      signing_input = h ++ ("." ++ b);
    }
        ≡ p =
      ground arith in
    (
      h,
      b,
      t,
      refl,
      or_raise-eq-ok (env.b64u_json h) invalid_dpop_proof e1 ∙ ap (λ q. some q.header) opened,
      or_raise-eq-ok (env.b64u_json b) invalid_dpop_proof e2 ∙ ap (λ q. some q.payload) opened,
      or_raise-eq-ok (env.b64u_decode t) invalid_dpop_proof e3 ∙ ap (λ q. some q.signature) opened,
      sym (ap (λ q. q.signing_input) opened),
    )
open_segments-ok env [] e = cc
open_segments-ok env (h ∷ []) e = cc
open_segments-ok env (h ∷ b ∷ []) e = cc
open_segments-ok env (h ∷ b ∷ t ∷ u ∷ ws) e = cc

-- A proof that passes is signed by the key that it carries.
pub check_proof-IsSigned :
    (env : Env) (max_age now : ℕ) (proof method url : String) {jwk payload : Fields} {jti : String}
    → check_proof env max_age now proof method url ≡ ok (jwk, payload, jti)
    → IsSigned env proof jwk payload
unfolding check_proof open_proof
check_proof-IsSigned env max_age now proof method url {jwk} {payload} {jti} h =
    let (r, e1, h1) = >>=-eq-ok (open_proof env proof) _ h in
    let (id, _, h2) = >>=-eq-ok (check_payload max_age now method url r.1) _ h1 in
    let (_, h3) = >>-eq-ok (refuse_if (not (is_nonempty proof)) invalid_dpop_proof) _ e1 in
    let (p, e4, h4) = >>=-eq-ok (open_segments env (split_dots proof)) _ h3 in
    let (key, e5, h5) = >>=-eq-ok (check_header env p) _ h4 in
    let (body, e6, h6) = >>=-eq-ok (object p.payload) _ h5 in
    let first : r.0 ≡ jwk = ground arith in
    let second : r.1 ≡ payload = ground arith in
    let read : (key, body) ≡ r = ground arith in
    let (header, x, y, is, purpose, algorithm, named, public, is_x, is_y, curve, verified) =
      check_header-ok env p e5 in
    let (h, b, t, segments, decoded, says, signs, input) =
      open_segments-ok env (split_dots proof) e4 in
    subst (IsSigned env proof jwk) (ap (λ q. q.1) read ∙ second) (
      subst (λ k. IsSigned env proof k body) (ap (λ q. q.0) read ∙ first)
        (record {
          head = h;
          body = b;
          tail = t;
          header = header;
          signature = p.signature;
          x = x;
          y = y;
          segments = segments;
          decoded = decoded ∙ ap some is;
          says = says ∙ ap some (object-obj p.payload e6);
          signs = signs;
          purpose = purpose;
          algorithm = algorithm;
          no_private = public;
          named = named;
          x_of = is_x;
          y_of = is_y;
          curve = curve;
          verified = ap (λ i. env.ecdsa_verify x y i p.signature) (sym input) ∙ verified;
        }))

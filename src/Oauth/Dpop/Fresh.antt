-- ===== src/Oauth/Dpop/Fresh.antt =====
-- What the payload of a DPoP proof says that passes its checks at the token endpoint
-- (authlab/oauth/dpop.py).
use auth_lab.Prelude.{
  ℕ, ◌≤◌, String, ◌≡◌, sym, subst, ap, ◌∙◌, true, not, Option, none, some, arith, str_eq, eq_iff,
  ltb,
}
use auth_lab.Prelude.Text.{is_nonempty}
use auth_lab.Prelude.Int.{ℤ, abs_diff}
use auth_lab.Json.{Json, null, bool, int, float, str, arr, obj, Fields, member, as_str, as_int}
use auth_lab.Url.{upper, to_upper}
use auth_lab.Oauth.Env.{Env}
use auth_lab.Oauth.Errors.{
  ok, or_raise, or_raise-eq-ok, refuse_if, invalid_dpop_proof, >>=-eq-ok, >>-eq-ok,
}
use auth_lab.Oauth.Dpop.Members.{is_text-str}
use auth_lab.Oauth.Dpop.Proof.{
  is_text, text_or, normalize_htu, check_payload, open_proof, check_proof,
}

-- The payload is for a POST to `url`, from at most `max_age` seconds before or after `now`, and has an
-- identifier.
pub record IsFor (max_age now : ℕ) (url : String) (payload : Fields) (jti : String) : Type 0 where
  pub htm : String
  pub htu : String
  pub iat : ℤ
  pub method : member "htm" payload ≡ some (str htm)
  pub posts : upper htm ≡ "POST"
  pub normal : normalize_htu url ≡ ok htu
  pub target : member "htu" payload ≡ some (str htu)
  pub dated : as_int (member "iat" payload) ≡ some iat
  pub fresh : abs_diff now iat ≤ max_age
  pub named : as_str (member "jti" payload) ≡ some jti
  pub nonempty : is_nonempty jti ≡ true

-- A method that is left out is no POST.
posted : (o : Option Json) (t : String) → text_or "" o ≡ ok t → upper t ≡ "POST" → o ≡ some (str t)
unfolding upper to_upper
posted none t h p = let same : "" ≡ t = ground arith in let bad = rw (← same) at p in cc
posted (some (str s)) t h p = ground arith
posted (some null) t h p = cc
posted (some (bool b)) t h p = cc
posted (some (int n)) t h p = cc
posted (some (float s)) t h p = cc
posted (some (arr xs)) t h p = cc
posted (some (obj o)) t h p = cc

check_payload-IsFor :
    (max_age now : ℕ) (url : String) (payload : Fields) {jti : String}
    → check_payload max_age now "POST" url payload ≡ ok jti
    → IsFor max_age now url payload jti
unfolding check_payload upper to_upper
check_payload-IsFor max_age now url payload {jti} h =
    let (htm, e1, h1) = >>=-eq-ok (text_or "" (member "htm" payload)) _ h in
    let (e2, h2) = >>-eq-ok (refuse_if (not (str_eq (upper htm) "POST")) invalid_dpop_proof) _ h1 in
    let (htu, e3, h3) = >>=-eq-ok (normalize_htu url) _ h2 in
    let (e4, h4) =
      >>-eq-ok (refuse_if (not (is_text (member "htu" payload) htu)) invalid_dpop_proof) _ h3 in
    let (iat, e5, h5) =
      >>=-eq-ok (or_raise (as_int (member "iat" payload)) invalid_dpop_proof) _ h4 in
    let (e6, h6) = >>-eq-ok (refuse_if (ltb max_age (abs_diff now iat)) invalid_dpop_proof) _ h5 in
    let (id, e7, h7) =
      >>=-eq-ok (or_raise (as_str (member "jti" payload)) invalid_dpop_proof) _ h6 in
    let (e8, h8) = >>-eq-ok (refuse_if (not (is_nonempty id)) invalid_dpop_proof) _ h7 in
    let same : id ≡ jti = ground arith in
    let post : upper htm ≡ "POST" = ground (arith, eq_iff (upper htm) "POST") in
    let full : is_nonempty id ≡ true = ground arith in
    record {
      htm = htm;
      htu = htu;
      iat = iat;
      method = posted (member "htm" payload) htm e1 post;
      posts = post;
      normal = e3;
      target = is_text-str (member "htu" payload) htu (ground arith);
      dated = or_raise-eq-ok (as_int (member "iat" payload)) invalid_dpop_proof e5;
      fresh = ground arith;
      named = or_raise-eq-ok (as_str (member "jti" payload)) invalid_dpop_proof e7 ∙ ap some same;
      nonempty = ap is_nonempty (sym same) ∙ full;
    }

pub check_proof-IsFor :
    (env : Env) (max_age now : ℕ) (proof url : String) {jwk payload : Fields} {jti : String}
    → check_proof env max_age now proof "POST" url ≡ ok (jwk, payload, jti)
    → IsFor max_age now url payload jti
unfolding check_proof
check_proof-IsFor env max_age now proof url {jwk} {payload} {jti} h =
    let (r, _, h1) = >>=-eq-ok (open_proof env proof) _ h in
    let (id, e, h2) = >>=-eq-ok (check_payload max_age now "POST" url r.1) _ h1 in
    let read : r.1 ≡ payload = ground arith in
    let same : id ≡ jti = ground arith in
    subst (λ q. IsFor max_age now url q jti) read
      (subst (λ i. IsFor max_age now url r.1 i) same (check_payload-IsFor max_age now url r.1 e))

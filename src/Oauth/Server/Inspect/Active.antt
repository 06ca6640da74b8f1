-- ===== src/Oauth/Server/Inspect/Active.antt =====
-- When a token introspects as active: from its minting on, until its client revokes it.
use auth_lab.Prelude.{
  ◌+◌, String, ◌≡◌, ◌≢◌, ◌⊎◌, inl, inr, refl, ap, ◌∙◌, Option, true, false, none, some, arith,
  eq_iff, eq_refl,
}
use auth_lab.Prelude.Text.{is_nonempty, truthy, join}
use auth_lab.Json.{member, with_member, str}
use auth_lab.Dict.{get}
use auth_lab.Dict.Laws.{get-set, get-modify}
use auth_lab.Oauth.Env.{Env}
use auth_lab.Oauth.Models.{Client, User, AccessToken, log, revoke_refresh_family}
use auth_lab.Oauth.Server.{AuthorizationServer}
use auth_lab.Oauth.Server.Mint.{Grant, cnf_members, issue_token_set, new_access}
use auth_lab.Oauth.Server.Mint.Bearer.{
  issue_token_set-SameRest, access_tokens-issue_token_set, access_jti,
}
use auth_lab.Oauth.Server.Inspect.{
  Report, nonempty, username_of, inactive, active, report, introspect, revoke, revoke_refresh,
}

get-issue_token_set :
    (env : Env) (g : Grant) (s : AuthorizationServer)
    → get (issue_token_set env g s).1.store.access_tokens (issue_token_set env g s).0.access_token
      ≡ some (new_access g (issue_token_set env g s).0.access_token (access_jti env g s) s)
get-issue_token_set env g s = rw (access_tokens-issue_token_set env g s) (
    rw
      (
        get-set s.store.access_tokens _ _ (issue_token_set env g s).0.access_token,
        eq_refl (issue_token_set env g s).0.access_token,
      )
      refl)

-- A text that is there and not empty is carried on, and nothing else.
abbrev pub Carries : {A : Type 0} → (String → A) → Option String → Option A → Type 0
Carries f o m =
    ((truthy o ≡ false) × (m ≡ none))
    ⊎ ((x : String) × (o ≡ some x) × (is_nonempty x ≡ true) × (m ≡ some (f x)))

-- What is reported of a token that was issued for the grant: who it is for, by whom, for how long, and
-- the keys that it is bound to.
pub record Describes (g : Grant) (id : String) (s : AuthorizationServer) (r : Report) : Type 0 where
  pub scope : r.scope ≡ join g.scope
  pub client_id : r.client_id ≡ g.client.client_id
  pub bearer : truthy g.cnf_jkt ≡ false → r.token_type ≡ "Bearer"
  pub proof_bound : truthy g.cnf_jkt ≡ true → r.token_type ≡ "DPoP"
  pub exp : r.exp ≡ s.now + s.access_token_lifetime
  pub iat : r.iat ≡ s.now
  pub iss : r.iss ≡ s.issuer
  pub aud : r.aud ≡ g.audience
  pub jti : r.jti ≡ id
  pub sub : Carries (λ x. x) g.subject r.sub
  pub username :
      (subject : String) (u : User)
      → is_nonempty subject ≡ true
      → g.subject ≡ some subject
      → get s.store.users subject ≡ some u
      → r.username ≡ some u.username
  pub authorization_details : r.authorization_details ≡ g.authorization_details
  pub bound_key : Carries str g.cnf_jkt (member "jkt" r.cnf)
  pub bound_certificate : Carries str g.cnf_x5t (member "x5t#S256" r.cnf)

nonempty-Carries : (o : Option String) → Carries (λ x. x) o (nonempty o)
nonempty-Carries none = inl (refl, refl)
nonempty-Carries (some String.[]) = inl (refl, refl)
nonempty-Carries (some (String.◌∷◌ c s)) = inr (String.◌∷◌ c s, refl, refl, refl)

cnf_members-Carries :
    (jkt x5t : Option String)
    → Carries str jkt (member "jkt" (cnf_members jkt x5t))
      × Carries str x5t (member "x5t#S256" (cnf_members jkt x5t))
unfolding cnf_members member with_member
cnf_members-Carries none none = (inl (refl, refl), inl (refl, refl))
cnf_members-Carries none (some String.[]) = (inl (refl, refl), inl (refl, refl))
cnf_members-Carries none (some (String.◌∷◌ d t)) =
    (inl (refl, refl), inr (String.◌∷◌ d t, refl, refl, refl))
cnf_members-Carries (some String.[]) none = (inl (refl, refl), inl (refl, refl))
cnf_members-Carries (some String.[]) (some String.[]) = (inl (refl, refl), inl (refl, refl))
cnf_members-Carries (some String.[]) (some (String.◌∷◌ d t)) =
    (inl (refl, refl), inr (String.◌∷◌ d t, refl, refl, refl))
cnf_members-Carries (some (String.◌∷◌ c s)) none =
    (inr (String.◌∷◌ c s, refl, refl, refl), inl (refl, refl))
cnf_members-Carries (some (String.◌∷◌ c s)) (some String.[]) =
    (inr (String.◌∷◌ c s, refl, refl, refl), inl (refl, refl))
cnf_members-Carries (some (String.◌∷◌ c s)) (some (String.◌∷◌ d t)) =
    (inr (String.◌∷◌ c s, refl, refl, refl), inr (String.◌∷◌ d t, refl, refl, refl))

named_user :
    (s : AuthorizationServer) (o : Option String) (subject : String) (u : User)
    → is_nonempty subject ≡ true
    → o ≡ some subject
    → get s.store.users subject ≡ some u
    → username_of s (nonempty o) ≡ some u.username
named_user s o subject u full named found = rw (named, full, found) refl

report-Describes :
    (env : Env) (g : Grant) (value jti : String) (s t : AuthorizationServer)
    → t.issuer ≡ s.issuer
    → t.store.users ≡ s.store.users
    → Describes g jti s (report (new_access g value jti s) t)
unfolding report new_access member
report-Describes env g value jti s t same_issuer same_users = record {
  scope = refl;
  client_id = refl;
  bearer = λ h. ground arith;
  proof_bound = λ h. ground arith;
  exp = refl;
  iat = refl;
  iss = same_issuer;
  aud = refl;
  jti = refl;
  sub = nonempty-Carries g.subject;
  username = λ subject u full named found.
      named_user t g.subject subject u full named (ap (λ d. get d subject) same_users ∙ found);
  authorization_details = refl;
  bound_key = (cnf_members-Carries g.cnf_jkt g.cnf_x5t).0;
  bound_certificate = (cnf_members-Carries g.cnf_jkt g.cnf_x5t).1;
}

-- A token set that is issued carries an access token that introspects as active, and the report
-- says what the grant says: its scope, client, audience and authorization details; its subject,
-- with the name of that user where the server knows it, and the key and the certificate that it
-- is bound to, each left out where the grant has none or an empty one; the type DPoP if the
-- grant names a key, else Bearer. The report names the server as issuer, its clock as the time
-- of issue, the end of the access token lifetime as expiry, and the identifier that was drawn.
pub introspect-issue_token_set :
    (env : Env) (g : Grant) (s : AuthorizationServer)
    → (r : Report) × (introspect
          (issue_token_set env g s).0.access_token
          (issue_token_set env g s).1
        ≡ active r)
      × Describes g (access_jti env g s) s r
unfolding introspect new_access
introspect-issue_token_set env g s =
    let (set, t) = issue_token_set env g s in
    let same = issue_token_set-SameRest env g s in
    (
      report (new_access g set.access_token (access_jti env g s) s) t,
      ground (arith, get-issue_token_set env g s, same),
      report-Describes env g set.access_token (access_jti env g s) s t same.issuer same.users,
    )

-- A token that its client revokes introspects as inactive.
pub introspect-revoke :
    (s : AuthorizationServer) (value : String) (c : Client) (t : AccessToken)
    → get s.store.access_tokens value ≡ some t
    → t.client_id ≡ c.client_id
    → introspect value (revoke value c s) ≡ inactive
unfolding introspect revoke log
introspect-revoke s value c t found own = ground (
  arith,
  found,
  eq_iff t.client_id c.client_id,
  get-modify s.store.access_tokens value (λ a. record a { revoked = true }) value,
  eq_refl value,
)

-- Whatever value a client has revoked, an access token of another client introspects as before.
pub introspect-revoke_foreign :
    (s : AuthorizationServer) (value key : String) (c : Client) (t : AccessToken)
    → get s.store.access_tokens key ≡ some t
    → t.client_id ≢ c.client_id
    → introspect key (revoke value c s) ≡ introspect key s
unfolding introspect revoke revoke_refresh log revoke_refresh_family report
introspect-revoke_foreign s value key c t found foreign = ground (
  arith,
  found,
  eq_iff value key,
  eq_iff t.client_id c.client_id,
  get-modify s.store.access_tokens value (λ a. record a { revoked = true }) key,
)

-- ===== src/Oauth/Dpop/Replay.antt =====
-- A proof is accepted once: what `seen` remembers outlives the proof's own lifetime.
use auth_lab.Prelude.{
  ℕ, ◌+◌, ◌*◌, ◌≤◌, ◌<◌, String, ◌≡◌, ◌≢◌, refl, Option, none, some, ◌⊎◌, arith, ltb, eq_iff, ap,
}
use auth_lab.Prelude.Int.{ℤ, abs_diff, pos, negsuc}
use auth_lab.Dict.{get}
use auth_lab.Dict.Laws.{get-set, get-drop_values}
use auth_lab.Json.{Fields, member, as_int, as_str}
use auth_lab.Oauth.Env.{Env}
use auth_lab.Oauth.Errors.{Result, ok, err, >>=-eq-ok}
use auth_lab.Oauth.Dpop.{
  DPoPVerifier, check_payload, check_proof, open_proof, purge, remember, admit, verify, issue_nonce,
}

-- The `iat` that a payload carries is at most `max_age` away from the clock.
abbrev pub Within : ℕ → ℕ → Option ℤ → Type 0
Within max_age now none = ⊥
Within max_age now (some iat) = abs_diff now iat ≤ max_age

check_payload-ok :
    (max_age now : ℕ) (method url : String) (payload : Fields) (jti : String)
    → check_payload max_age now method url payload ≡ ok jti
    → (as_str (member "jti" payload) ≡ some jti)
      × Within max_age now (as_int (member "iat" payload))
unfolding check_payload
check_payload-ok max_age now method url payload jti h = (ground arith, ground arith)

-- From the time of acceptance on, `seen` holds the `jti` until `e`, and the window stays as it was.
abbrev pub Holds : ℕ → String → ℕ → ℕ → DPoPVerifier → Type 0
Holds max_age jti e t v = (v.max_age ≡ max_age) × ((e < t) ⊎ (get v.seen jti ≡ some e))

purge-Holds :
    (max_age e t now : ℕ) (jti : String) (v : DPoPVerifier)
    → t ≤ now
    → Holds max_age jti e t v
    → Holds max_age jti e now (purge now v)
unfolding purge
purge-Holds max_age e t now jti v le h =
    ground (arith, get-drop_values (λ exp. ltb exp now) v.seen jti {v = e})

remember-Holds :
    (env : Env) (max_age e now : ℕ) (jwk payload : Fields) (jti j : String)
    (token key : Option String) (v : DPoPVerifier)
    → Holds max_age jti e now v
    → Holds max_age jti e now (remember env now jwk payload j token key v).1
unfolding remember
remember-Holds env max_age e now jwk payload jti j token key v h =
    ground (arith, get-set v.seen j (now + v.max_age * 2) jti, eq_iff j jti)

admit-Holds :
    (env : Env) (max_age e t now : ℕ) (token key : Option String)
    (r : Result (Fields × Fields × String)) (jti : String) (v : DPoPVerifier)
    → t ≤ now
    → Holds max_age jti e t v
    → Holds max_age jti e now (admit env now token key r v).1
unfolding admit
admit-Holds env max_age e t now token key (ok (jwk, payload, j)) jti v le h =
    remember-Holds env max_age e now jwk payload jti j token key (purge now v)
      (purge-Holds max_age e t now jti v le h)
admit-Holds env max_age e t now token key (err x) jti v le h = ground arith

-- What happens to a verifier: proofs are checked and nonces issued, while the clock goes on.
pub data Serves (env : Env) (t : ℕ) (v : DPoPVerifier) : ℕ → DPoPVerifier → Type 0 where
  rest : {t' : ℕ} → t ≤ t' → Serves env t v t' v
  check :
      {t' : ℕ} {w : DPoPVerifier}
      → Serves env t v t' w
      → (now : ℕ) → t' ≤ now
      → (proof method url : String) (token key : Option String)
      → Serves env t v now (verify env now proof method url token key w).1
  nonce :
      {t' : ℕ} {w : DPoPVerifier}
      → Serves env t v t' w
      → (draw : ℕ) → Serves env t v t' (issue_nonce env draw w).0

Serves-Holds :
    (env : Env) (max_age e : ℕ) (jti : String) {t : ℕ} {v : DPoPVerifier} {t' : ℕ}
    {w : DPoPVerifier}
    → Holds max_age jti e t v
    → Serves env t v t' w
    → Holds max_age jti e t' w
unfolding verify issue_nonce
Serves-Holds env max_age e jti h (rest le) = ground arith
Serves-Holds env max_age e jti h (check {t'} {w} s now le proof method url token key) =
    admit-Holds env max_age e t' now token key (check_proof env w.max_age now proof method url) jti
      w le (Serves-Holds env max_age e jti h s)
Serves-Holds env max_age e jti h (nonce s draw) = Serves-Holds env max_age e jti h s

check_proof-ok :
    (env : Env) (max_age now : ℕ) (proof method url : String) (jwk payload : Fields) (jti : String)
    → check_proof env max_age now proof method url ≡ ok (jwk, payload, jti)
    → (open_proof env proof ≡ ok (jwk, payload))
      × (as_str (member "jti" payload) ≡ some jti)
      × Within max_age now (as_int (member "iat" payload))
unfolding check_proof
check_proof-ok env max_age now proof method url jwk payload jti h =
    let ((k, p), opened, h1) = >>=-eq-ok (open_proof env proof) _ h in
    let (j, checked, h2) = >>=-eq-ok (check_payload max_age now method url p) _ h1 in
    ground (arith, check_payload-ok max_age now method url p j checked)

-- An accepted proof was not in `seen`, and is there afterwards.
admit-ok :
    (env : Env) (now : ℕ) (token key : Option String) (r : Result (Fields × Fields × String))
    (v : DPoPVerifier) {t : String}
    → (admit env now token key r v).0 ≡ ok t
    → (jwk : Fields) × (payload : Fields) × (jti : String) × (r ≡ ok (jwk, payload, jti))
      × (get (purge now v).seen jti ≡ none)
      × Holds v.max_age jti (now + v.max_age * 2) now (admit env now token key r v).1
unfolding admit remember purge
admit-ok env now token key (ok (jwk, payload, jti)) v h = (
  jwk,
  payload,
  jti,
  refl,
  ground arith,
  ground (arith, get-set (purge now v).seen jti (now + v.max_age * 2) jti, eq_iff jti jti),
)
admit-ok env now token key (err e) v h = cc

-- The window of a proof ends when the entry of its `jti` may be dropped, and not later.
no_second_time :
    (max_age max_age' now later : ℕ) (iat iat' : Option ℤ) (jti jti' : String) (v : DPoPVerifier)
    → Within max_age now iat
    → Within max_age' later iat'
    → max_age' ≡ max_age
    → iat ≡ iat'
    → some jti ≡ some jti'
    → Holds max_age jti (now + max_age * 2) later v
    → get v.seen jti' ≢ none
no_second_time m m' now later (some (pos n)) iat' jti jti' v h k p q same held fresh = ground arith
no_second_time m m' now later (some (negsuc n)) iat' jti jti' v h k p q same held fresh =
    ground arith
no_second_time m m' now later none iat' jti jti' v h k p q same held fresh = absurd h

-- A proof that was accepted is refused from then on: whatever proofs are checked and nonces issued
-- in between, and however far the clock has gone on, no later check of it returns.
pub verify_once :
    (env : Env) (v w : DPoPVerifier) (now later : ℕ) (proof method url method' url' : String)
    (token key token' key' : Option String) (t t' : String)
    → (verify env now proof method url token key v).0 ≡ ok t
    → Serves env now (verify env now proof method url token key v).1 later w
    → (verify env later proof method' url' token' key' w).0 ≢ ok t'
unfolding verify
verify_once env v w now later proof method url method' url' token key token' key' t t' first s
      again =
    let (jwk, payload, jti, passed, _, held) = admit-ok env now token key _ v first in
    let (jwk', payload', jti', passed', fresh, _) = admit-ok env later token' key' _ w again in
    let (opened, named, young) = check_proof-ok env _ now proof method url jwk payload jti passed in
    let (opened', named', young') =
      check_proof-ok env _ later proof method' url' jwk' payload' jti' passed' in
    let kept = Serves-Holds env v.max_age (now + v.max_age * 2) jti held s in
    let dropped =
      purge-Holds v.max_age (now + v.max_age * 2) later later jti w (omega arith) kept in
    let same : payload ≡ payload' = cc (opened, opened') in
    no_second_time v.max_age w.max_age now later _ _ jti jti' (purge later w) young young' kept.0
      (ap (λ (p : Fields). as_int (member "iat" p)) same)
      (cc (named, named', ap (λ (p : Fields). as_str (member "jti" p)) same)) dropped fresh

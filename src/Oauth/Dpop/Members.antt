-- ===== src/Oauth/Dpop/Members.antt =====
-- What the readers of a member of a DPoP proof let through (authlab/oauth/dpop.py).
use auth_lab.Prelude.{String, ◌≡◌, refl, true, Bool, Option, none, some, arith, eq_iff}
use auth_lab.Json.{Json, null, bool, int, float, str, arr, obj, Fields}
use auth_lab.Oauth.Errors.{ok}
use auth_lab.Oauth.Dpop.Proof.{is_text, is_none, object, coordinate, on_curve, jwk_of}

pub is_text-str : (o : Option Json) (t : String) → is_text o t ≡ true → o ≡ some (str t)
is_text-str none t h = cc
is_text-str (some (str s)) t h = ground (arith, eq_iff s t)
is_text-str (some null) t h = cc
is_text-str (some (bool b)) t h = cc
is_text-str (some (int n)) t h = cc
is_text-str (some (float s)) t h = cc
is_text-str (some (arr xs)) t h = cc
is_text-str (some (obj o)) t h = cc

pub object-obj : (j : Json) {o : Fields} → object j ≡ ok o → j ≡ obj o
object-obj (obj p) h = ground arith
object-obj null h = cc
object-obj (bool b) h = cc
object-obj (int n) h = cc
object-obj (float t) h = cc
object-obj (str t) h = cc
object-obj (arr xs) h = cc

pub coordinate-str : (o : Option Json) {x : String} → coordinate o ≡ ok x → o ≡ some (str x)
coordinate-str none h = cc
coordinate-str (some (str t)) h = ground arith
coordinate-str (some null) h = cc
coordinate-str (some (bool b)) h = cc
coordinate-str (some (int n)) h = cc
coordinate-str (some (float t)) h = cc
coordinate-str (some (arr xs)) h = cc
coordinate-str (some (obj o)) h = cc

pub jwk_of-obj : (o : Option Json) {jwk : Fields} → jwk_of o ≡ ok jwk → o ≡ some (obj jwk)
jwk_of-obj none h = cc
jwk_of-obj (some (obj p)) h = ground arith
jwk_of-obj (some null) h = cc
jwk_of-obj (some (bool b)) h = cc
jwk_of-obj (some (int n)) h = cc
jwk_of-obj (some (float t)) h = cc
jwk_of-obj (some (str t)) h = cc
jwk_of-obj (some (arr xs)) h = cc

pub on_curve-true : (o : Option Bool) → on_curve o ≡ ok tt → o ≡ some true
on_curve-true none h = cc
on_curve-true (some b) h = ground arith

pub is_none-none : (o : Option Json) → is_none o ≡ true → o ≡ none
is_none-none none h = refl
is_none-none (some j) h = cc

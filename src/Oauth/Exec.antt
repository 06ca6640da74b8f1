-- ===== src/Oauth/Exec.antt =====
-- Methods of an object that may raise: they read and write a state, and return or raise. What was
-- written before a raise stays written.
use auth_lab.Oauth.Errors.{OAuthError, oauth, Result, ok, err}

-- A call that reads and writes the state `S`, and returns or raises.
abbrev pub Exec {ℓ} : Type ℓ → Type ℓ → Type ℓ
Exec S A = S → Result A × S

module _ {ℓ} {S A : Type ℓ} where
  abbrev pub pure : A → Exec S A
  pure a s = (ok a, s)

  abbrev pub raise : OAuthError → Exec S A
  raise e s = (err (oauth e), s)

abbrev pub continue {ℓ} : {S A B : Type ℓ} → Result A × S → (A → Exec S B) → Result B × S
continue (ok a, s) f = f a s
continue (err e, s) f = (err e, s)

infixl 5 ◌>>=◌
abbrev pub ◌>>=◌ {ℓ} : {S A B : Type ℓ} → Exec S A → (A → Exec S B) → Exec S B
◌>>=◌ m f s = continue (m s) f

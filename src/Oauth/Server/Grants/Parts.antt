-- ===== src/Oauth/Server/Grants/Parts.antt =====
-- What the grants share: tests on texts that may be missing, and the answer with a token set.
use auth_lab.Prelude.{
  String, Bool, false, Option, none, some, List, [], ◌∷◌, ◌&&◌, not, str_eq, if◌then◌else◌,
}
use auth_lab.Prelude.Text.{is_nonempty, truthy}
use auth_lab.Oauth.Errors.{Result, ok}
use auth_lab.Oauth.Server.{AuthorizationServer}
use auth_lab.Oauth.Server.Mint.{TokenSet}

-- `list[:1]`
abbrev pub first_of_list : List String → List String
first_of_list [] = []
first_of_list (x ∷ xs) = x ∷ []

abbrev pub or_else : List String → List String → List String
or_else [] d = d
or_else (x ∷ xs) d = x ∷ xs

-- `a != b` of texts that may be missing
abbrev pub same_text : Option String → String → Bool
same_text none t = false
same_text (some s) t = str_eq s t

-- `bound and bound != presented`
abbrev pub wrong_key : Option String → Option String → Bool
wrong_key none presented = false
wrong_key (some bound) presented = is_nonempty bound && not (same_text presented bound)

abbrev pub or_text : Option String → Option String → Option String
or_text held presented = if truthy held then held else presented

abbrev pub return_set : TokenSet × AuthorizationServer → Result TokenSet × AuthorizationServer
return_set (t, s) = (ok t, s)

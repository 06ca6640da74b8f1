-- ===== src/Url.antt =====
-- What the library uses of Python's `urllib.parse` and of `str.upper`, `str.lower`, for ASCII texts.
-- `none` stands for the `ValueError` of unbalanced brackets; the checks of a bracketed address's
-- digits and of compatibility characters, which only raise `ValueError` too, are left out.
use Prim.Native.Char.{Char, code}
use Prim.Native.String.{char_at, ◌++◌}
use auth_lab.Prelude.{
  ℕ, ◌-◌, String, Bool, true, false, Option, none, some, ◌&&◌, ◌||◌, not, leb, ◌==◌, if◌then◌else◌,
}
use auth_lab.Prelude.Text.{is_nonempty}

unfoldable pub to_lower : Char → Char
to_lower c =
    let n = code c in
    if leb 65 n && leb n 90 then char_at "abcdefghijklmnopqrstuvwxyz" (n - 65) else c

unfoldable pub to_upper : Char → Char
to_upper c =
    let n = code c in
    if leb 97 n && leb n 122 then char_at "ABCDEFGHIJKLMNOPQRSTUVWXYZ" (n - 97) else c

-- `s.lower()` and `s.upper()`
unfoldable pub lower : String → String
unfolding to_lower
lower String.[] = ""
lower (String.◌∷◌ c s) = String.◌∷◌ (to_lower c) (lower s)

unfoldable pub upper : String → String
unfolding to_upper
upper String.[] = ""
upper (String.◌∷◌ c s) = String.◌∷◌ (to_upper c) (upper s)

-- The text before the first character that passes the test, and the text from there on.
unfoldable pub span_until : (Char → Bool) → String → String × String
span_until p String.[] = ("", "")
span_until p (String.◌∷◌ c s) =
    let (a, r) = span_until p s in if p c then ("", String.◌∷◌ c s) else (String.◌∷◌ c a, r)

abbrev pub tail : String → String
tail String.[] = ""
tail (String.◌∷◌ c s) = s

-- `n in s`, for the character with the code `n`
unfoldable pub has_char : ℕ → String → Bool
has_char n String.[] = false
has_char n (String.◌∷◌ c s) = code c == n || has_char n s

abbrev is_alpha : ℕ → Bool
is_alpha n = leb 65 n && leb n 90 || leb 97 n && leb n 122

abbrev is_scheme_char : ℕ → Bool
is_scheme_char n = is_alpha n || leb 48 n && leb n 57 || n == b'+' || n == b'-' || n == b'.'

unfoldable pub all_scheme_chars : String → Bool
all_scheme_chars String.[] = true
all_scheme_chars (String.◌∷◌ c s) = is_scheme_char (code c) && all_scheme_chars s

unfoldable pub is_scheme : String → Bool
unfolding all_scheme_chars
is_scheme String.[] = false
is_scheme (String.◌∷◌ c s) = is_alpha (code c) && all_scheme_chars (String.◌∷◌ c s)

-- leading spaces and control characters go
unfoldable pub strip_left : String → String
strip_left String.[] = ""
strip_left (String.◌∷◌ c s) =
    let rest = strip_left s in if leb (code c) 32 then rest else String.◌∷◌ c s

-- tabs and line ends go, wherever they stand
unfoldable pub drop_unsafe : String → String
drop_unsafe String.[] = ""
drop_unsafe (String.◌∷◌ c s) =
    let rest = drop_unsafe s in
    if code c == 9 || code c == 10 || code c == 13 then rest else String.◌∷◌ c rest

pub record UrlParts : Type 0 where
  pub scheme : String
  pub netloc : String
  pub path : String
  pub query : String
  pub fragment : String

unfoldable pub split_scheme : String → String × String
unfolding span_until is_scheme lower
split_scheme url =
    let (a, r) = span_until (λ c. code c == b':') url in
    if is_nonempty r && is_scheme a then (lower a, tail r) else ("", url)

unfoldable pub split_netloc : String → String × String
unfolding span_until
split_netloc (String.◌∷◌ c (String.◌∷◌ d s)) =
    if code c == b'/' && code d == b'/'
    then span_until (λ e. code e == b'/' || code e == b'?' || code e == b'#') s
    else ("", String.◌∷◌ c (String.◌∷◌ d s))
split_netloc s = ("", s)

-- `urlsplit(url)`
unfoldable pub urlsplit : String → Option UrlParts
unfolding split_scheme split_netloc span_until has_char drop_unsafe strip_left
urlsplit url =
    let (scheme, after_scheme) = split_scheme (drop_unsafe (strip_left url)) in
    let (netloc, after_netloc) = split_netloc after_scheme in
    let (before_hash, hash) = span_until (λ c. code c == b'#') after_netloc in
    let (path, mark) = span_until (λ c. code c == b'?') before_hash in
    if has_char b'[' netloc && not (has_char b']' netloc)
      || has_char b']' netloc && not (has_char b'[' netloc)
    then none
    else some (record {
      scheme = scheme;
      netloc = netloc;
      path = path;
      query = tail mark;
      fragment = tail hash;
    })

-- the text behind the last `@`
unfoldable pub after_userinfo : String → String
unfolding span_until has_char
after_userinfo String.[] = ""
after_userinfo (String.◌∷◌ c s) =
    let rest = after_userinfo s in
    if has_char b'@' s then rest else if code c == b'@' then s else String.◌∷◌ c s

-- `parts.hostname`, "" where Python has `None`: the address inside brackets, without them, or the
-- text before the port
unfoldable pub hostname : UrlParts → String
unfolding after_userinfo span_until has_char lower
hostname parts =
    let info = after_userinfo parts.netloc in
    let host =
      if has_char b'[' info
      then (span_until (λ c. code c == b']') (tail (span_until (λ c. code c == b'[') info).1)).0
      else (span_until (λ c. code c == b':') info).0 in
    let (name, zone) = span_until (λ c. code c == b'%') host in lower name ++ zone

-- `urlunsplit((scheme, netloc, path, "", ""))`
unfoldable pub unsplit_base : String → String → String → String
unsplit_base scheme netloc path =
    let rooted =
      if is_nonempty netloc
      then (if is_nonempty path && not (starts_slash path)
          then "//" ++ (netloc ++ ("/" ++ path))
          else "//" ++ (netloc ++ path))
      else path in
    if is_nonempty scheme then scheme ++ (":" ++ rooted) else rooted
  where
    starts_slash : String → Bool
    starts_slash String.[] = false
    starts_slash (String.◌∷◌ c s) = code c == b'/'

-- ===== src/Prelude/Text.antt =====
-- Python's `str` where the program walks it: truth of a text, `split()` and `" ".join`, on the
-- native texts.
use Prim.Native.Nat.{ℕ, Ordering}
use Prim.Native.Char.{Char, code}
use Prim.Native.String.{String, ◌++◌, compare}
use mathlib.Core.Bool.{Bool, true, false, ◌&&◌, ◌||◌}
use mathlib.Core.Option.{Option, none, some}
use mathlib.Core.List.{List}
use text.Mathlib.Text.{◌==◌ as str_eq}
use auth_lab.Prelude.Checks.{leb, ◌==◌, if◌then◌else◌}

-- `bool(s)`
abbrev pub is_nonempty : String → Bool
is_nonempty String.[] = false
is_nonempty (String.◌∷◌ c s) = true

-- `bool(x)` of a `str | None`
abbrev pub truthy : Option String → Bool
truthy none = false
truthy (some s) = is_nonempty s

-- `x or ""`
abbrev pub or_empty : Option String → String
or_empty none = ""
or_empty (some s) = s

-- `str.isspace` of one character
unfoldable pub is_space : Char → Bool
is_space c =
    let n = code c in
    leb 9 n && leb n 13
    || leb 28 n && leb n 32
    || n == 0x85
    || n == 0xa0
    || n == 0x1680
    || leb 0x2000 n && leb n 0x200a
    || n == 0x2028
    || n == 0x2029
    || n == 0x202f
    || n == 0x205f
    || n == 0x3000

abbrev pub add_word : String → List String → List String
add_word String.[] ws = ws
add_word (String.◌∷◌ c w) ws = List.◌∷◌ (String.◌∷◌ c w) ws

-- The word that a text begins with, and the words behind it.
unfoldable pub chunk : String → String × List String
chunk String.[] = ("", List.[])
chunk (String.◌∷◌ c s) =
    let (w, ws) = chunk s in if is_space c then ("", add_word w ws) else (String.◌∷◌ c w, ws)

-- `s.split()`
unfoldable pub split : String → List String
unfolding chunk is_space
split s = let (w, ws) = chunk s in add_word w ws

-- `" ".join(words)`
abbrev pub join : List String → String
join List.[] = ""
join (List.◌∷◌ w List.[]) = w
join (List.◌∷◌ w (List.◌∷◌ v ws)) = w ++ (" " ++ join (List.◌∷◌ v ws))

-- `s.strip()`
unfoldable pub strip_left : String → String
strip_left String.[] = ""
strip_left (String.◌∷◌ c s) = let rest = strip_left s in if is_space c then rest else String.◌∷◌ c s

unfoldable pub strip_right : String → String
strip_right String.[] = ""
strip_right (String.◌∷◌ c s) = keep (strip_right s)
  where
    keep : String → String
    keep String.[] = if is_space c then "" else String.◌∷◌ c ""
    keep (String.◌∷◌ d t) = String.◌∷◌ c (String.◌∷◌ d t)

unfoldable pub strip : String → String
unfolding strip_left strip_right
strip s = strip_right (strip_left s)

-- `s.replace(c, "")`, for the character with the code `n`
unfoldable pub drop_char : ℕ → String → String
drop_char n String.[] = ""
drop_char n (String.◌∷◌ c s) =
    let rest = drop_char n s in if code c == n then rest else String.◌∷◌ c rest

-- `text.split(c, 1)` for the character with the code `n`: the text before it and the text behind,
-- `none` where it does not occur.
unfoldable pub split_once : ℕ → String → Option (String × String)
split_once n String.[] = none
split_once n (String.◌∷◌ c s) = longer (code c == n) (split_once n s)
  where
    longer : Bool → Option (String × String) → Option (String × String)
    longer true later = some ("", s)
    longer false none = none
    longer false (some (a, b)) = some (String.◌∷◌ c a, b)

-- `text.split(c, 1)[0]`
abbrev pub before : ℕ → String → String
before n s = elim (split_once n s) [ none ↦ s | some (a, b) ↦ a ]

-- `s.startswith(p)`
unfoldable pub starts_with : String → String → Bool
starts_with String.[] s = true
starts_with (String.◌∷◌ c p) String.[] = false
starts_with (String.◌∷◌ c p) (String.◌∷◌ d s) = code c == code d && starts_with p s

-- `s.endswith(p)`
unfoldable pub ends_with : String → String → Bool
ends_with p String.[] = str_eq p ""
ends_with p (String.◌∷◌ c s) = str_eq p (String.◌∷◌ c s) || ends_with p s

-- `s[:-1]`
unfoldable pub drop_last : String → String
drop_last String.[] = ""
drop_last (String.◌∷◌ c String.[]) = ""
drop_last (String.◌∷◌ c (String.◌∷◌ d s)) = String.◌∷◌ c (drop_last (String.◌∷◌ d s))

-- `sorted(texts)`
abbrev not_after : String → String → Bool
not_after s t = elim (compare s t) [ Ordering.gt ↦ false | _ ↦ true ]

unfoldable pub insert_text : String → List String → List String
insert_text s List.[] = List.◌∷◌ s List.[]
insert_text s (List.◌∷◌ t ts) =
    let later = insert_text s ts in
    if not_after s t then List.◌∷◌ s (List.◌∷◌ t ts) else List.◌∷◌ t later

unfoldable pub sort_texts : List String → List String
unfolding insert_text
sort_texts List.[] = List.[]
sort_texts (List.◌∷◌ s ts) = insert_text s (sort_texts ts)

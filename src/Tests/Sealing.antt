-- ===== src/Tests/Sealing.antt =====
-- A cipher for the tests: the key and the fields of the plaintext, one after the other, in the open.
use auth_lab.Prelude.{
  ℕ, zero, suc, ◌≡◌, refl, String, Bool, true, false, ◌&&◌, ◌==◌, if◌then◌else◌, Option, none, some,
  List, [], ◌∷◌, map, arith,
}
use Prim.Native.Char.{code}
use auth_lab.Prelude.Chars.{from_code, from_code-code}
use Prim.Native.String.{◌++◌}
use auth_lab.Prelude.Int.{ℤ, pos, negsuc}
use auth_lab.Crypto.Bytes.{Bytes}
use auth_lab.Kerberos.{
  Plain, ticket_part, authenticator, key_part, echo, stamp, unreadable, Env, OpensSealed,
}

pub codes : String → List ℕ
codes String.[] = []
codes (String.◌∷◌ c s) = code c ∷ codes s

text : List ℕ → String
unfolding from_code
text [] = ""
text (n ∷ ns) = String.◌∷◌ (from_code n) (text ns)

text-codes : (s : String) → text (codes s) ≡ s
unfolding text codes
text-codes String.[] = refl
text-codes (String.◌∷◌ c s) = rw (from_code-code c, text-codes s) refl

-- Fields one after the other, each up to a 0.
put : List ℕ → List ℕ → List ℕ
put [] rest = 0 ∷ rest
put (n ∷ ns) rest = suc n ∷ put ns rest

pub flatten : List (List ℕ) → List ℕ
unfolding put
flatten [] = []
flatten (f ∷ fs) = put f (flatten fs)

add : ℕ → List (List ℕ) → List (List ℕ)
add n [] = (n ∷ []) ∷ []
add n (f ∷ fs) = (n ∷ f) ∷ fs

pub unflatten : List ℕ → List (List ℕ)
unfolding add
unflatten [] = []
unflatten (zero ∷ rest) = [] ∷ unflatten rest
unflatten (suc n ∷ rest) = add n (unflatten rest)

unflatten-put : (f rest : List ℕ) → unflatten (put f rest) ≡ f ∷ unflatten rest
unfolding unflatten put add
unflatten-put [] rest = refl
unflatten-put (n ∷ f) rest = rw (unflatten-put f rest) refl

unflatten-flatten : (fs : List (List ℕ)) → unflatten (flatten fs) ≡ fs
unfolding flatten unflatten
unflatten-flatten [] = refl
unflatten-flatten (f ∷ fs) = rw (unflatten-put f (flatten fs), unflatten-flatten fs) refl

texts : List ℕ → List String
unfolding unflatten text
texts ns = map text (unflatten ns)

put_texts : List String → List ℕ
unfolding flatten codes
put_texts ss = flatten (map codes ss)

map-text-codes : (ss : List String) → map text (map codes ss) ≡ ss
map-text-codes [] = refl
map-text-codes (s ∷ ss) = rw (text-codes s, map-text-codes ss) refl

texts-put_texts : (ss : List String) → texts (put_texts ss) ≡ ss
unfolding texts put_texts
texts-put_texts ss = rw (unflatten-flatten (map codes ss)) (map-text-codes ss)

-- Fields by their place, with nothing where there are none.
field : ℕ → List (List ℕ) → List ℕ
field i [] = []
field zero (f ∷ fs) = f
field (suc i) (f ∷ fs) = field i fs

number : ℕ → List ℕ → ℕ
number i [] = 0
number zero (n ∷ ns) = n
number (suc i) (n ∷ ns) = number i ns

of_int : ℤ → List ℕ
of_int (pos n) = 0 ∷ n ∷ []
of_int (negsuc n) = 1 ∷ n ∷ []

int : List ℕ → ℤ
unfolding number
int [] = pos 0
int (zero ∷ ns) = pos (number 0 ns)
int (suc s ∷ ns) = negsuc (number 0 ns)

int-of_int : (z : ℤ) → int (of_int z) ≡ z
unfolding int of_int number
int-of_int (pos n) = refl
int-of_int (negsuc n) = refl

of_option : Option Bytes → List ℕ
of_option none = []
of_option (some b) = 0 ∷ b

option : List ℕ → Option Bytes
option [] = none
option (n ∷ b) = some b

option-of_option : (o : Option Bytes) → option (of_option o) ≡ o
unfolding option of_option
option-of_option none = refl
option-of_option (some b) = refl

pub fields : Plain → List (List ℕ)
unfolding codes put_texts of_int of_option
fields (ticket_part t) =
    (0 ∷ [])
    ∷ codes t.client
    ∷ codes t.realm
    ∷ t.session_key
    ∷ (t.auth_time ∷ t.start_time ∷ t.end_time ∷ t.renew_till ∷ [])
    ∷ put_texts t.flags
    ∷ put_texts t.groups
    ∷ []
fields (authenticator a) =
    (1 ∷ [])
    ∷ codes a.client
    ∷ codes a.realm
    ∷ of_int a.timestamp
    ∷ of_int a.microseconds
    ∷ a.checksum
    ∷ of_option a.subkey
    ∷ of_int a.sequence_number
    ∷ []
fields (key_part key end_time) = (2 ∷ []) ∷ key ∷ (end_time ∷ []) ∷ []
fields (echo t n) = (3 ∷ []) ∷ of_int t ∷ of_int n ∷ []
fields (stamp t) = (4 ∷ []) ∷ of_int t ∷ []
fields unreadable = (5 ∷ []) ∷ []

read : ℕ → List (List ℕ) → Plain
unfolding field number text texts int option
read zero fs = ticket_part (record {
  client = text (field 1 fs);
  realm = text (field 2 fs);
  session_key = field 3 fs;
  auth_time = number 0 (field 4 fs);
  start_time = number 1 (field 4 fs);
  end_time = number 2 (field 4 fs);
  renew_till = number 3 (field 4 fs);
  flags = texts (field 5 fs);
  groups = texts (field 6 fs);
})
read (suc zero) fs = authenticator (record {
  client = text (field 1 fs);
  realm = text (field 2 fs);
  timestamp = int (field 3 fs);
  microseconds = int (field 4 fs);
  checksum = field 5 fs;
  subkey = option (field 6 fs);
  sequence_number = int (field 7 fs);
})
read (suc (suc zero)) fs = key_part (field 1 fs) (number 0 (field 2 fs))
read (suc (suc (suc zero))) fs = echo (int (field 1 fs)) (int (field 2 fs))
read (suc (suc (suc (suc zero)))) fs = stamp (int (field 1 fs))
read (suc (suc (suc (suc (suc n))))) fs = unreadable

read-fields : (p : Plain) → read (number 0 (field 0 (fields p))) (fields p) ≡ p
unfolding read fields field number
read-fields (ticket_part t) =
    rw (text-codes t.client, text-codes t.realm, texts-put_texts t.flags, texts-put_texts t.groups)
      refl
read-fields (authenticator a) =
    rw
      (
        text-codes a.client,
        text-codes a.realm,
        int-of_int a.timestamp,
        int-of_int a.microseconds,
        option-of_option a.subkey,
        int-of_int a.sequence_number,
      )
      refl
read-fields (key_part key end_time) = refl
read-fields (echo t n) = rw (int-of_int t, int-of_int n) refl
read-fields (stamp t) = rw (int-of_int t) refl
read-fields unreadable = refl

same : List ℕ → List ℕ → Bool
same [] [] = true
same [] (y ∷ ys) = false
same (x ∷ xs) [] = false
same (x ∷ xs) (y ∷ ys) = x == y && same xs ys

same_refl : (xs : List ℕ) → same xs xs ≡ true
unfolding same
same_refl [] = refl
same_refl (x ∷ xs) = ground (arith, same_refl xs)

pub open_fields : Bytes → List (List ℕ) → Option Plain
unfolding same read
open_fields key [] = none
open_fields key (f ∷ fs) = if same key f then some (read (number 0 (field 0 fs)) fs) else none

-- Keys are texts, or the number of a draw.
abbrev pub env : Env
env = record {
  seal = λ key plain draw. flatten (key ∷ fields plain);
  unseal = λ key cipher. open_fields key (unflatten cipher);
  string_to_key = λ password salt. codes (password ++ salt);
  random_key = λ draw. draw ∷ [];
  random_number = λ draw. draw;
}

pub env-OpensSealed : OpensSealed env
unfolding open_fields
env-OpensSealed key plain draw =
    rw (unflatten-flatten (key ∷ fields plain), same_refl key, read-fields plain) refl

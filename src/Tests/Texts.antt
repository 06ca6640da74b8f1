-- ===== src/Tests/Texts.antt =====
-- Python's functions on texts, at the texts that the program meets.
use auth_lab.Prelude.{◌≡◌, refl, some, [], ◌∷◌}
use auth_lab.Prelude.Text.{split}
use auth_lab.Url.{urlsplit, hostname}

split_example : split " openid  orders:read " ≡ "openid" ∷ "orders:read" ∷ []
unfolding split
split_example = refl

-- The host of an IPv6 address stands without its brackets.
hostname_examples :
    (urlsplit "http://user@LocalHost:8080/cb?x=1#f"
      ≡ some (record {
        scheme = "http";
        netloc = "user@LocalHost:8080";
        path = "/cb";
        query = "x=1";
        fragment = "f";
      }))
    × (hostname (record {
      scheme = "http";
      netloc = "user@LocalHost:8080";
      path = "/cb";
      query = "x=1";
      fragment = "f";
    })
        ≡ "localhost")
    × (hostname
          (record { scheme = "http"; netloc = "[::1]:80"; path = ""; query = ""; fragment = "" })
        ≡ "::1")
unfolding urlsplit hostname
hostname_examples = (refl, refl, refl)

-- ===== src/Tests/Sharing.antt =====
-- The theorems on relationship-based access control, for a document in a shared folder.
use auth_lab.Prelude.{
  ℕ, ◌≤◌, ◌≡◌, ◌⊎◌, ◌↔◌, refl, String, true, false, none, some, [], ◌∷◌, In, Among, All-Among,
}
use auth_lab.Prelude.Text.{split_once, ends_with}
use auth_lab.Authz.Rebac.{Tuple, Rebac, this, through, union, cons, nil, check, fits_wildcard}
use auth_lab.Authz.Rebac.Member.{Member}
use auth_lab.Authz.Rebac.Queries.{check_iff}
use auth_lab.Authz.Rebac.Expand.{list_users}
use auth_lab.Authz.Rebac.Expand.Sharing.{check-list_users}

-- Two groups that contain each other, a folder for one of them and for everyone named `guest:`, and a
-- document in it.
abbrev shared : Rebac
shared = record {
  max_depth = 25;
  namespaces =
      (
        "document",
        record {
          name = "document";
          relations =
              ("viewer", union (cons this (cons (through (some "parent") (some "viewer")) nil)))
              ∷ [];
        },
      )
      ∷ [];
  tuples =
      record { object = "document:plan"; relation = "parent"; user = "folder:team" }
      ∷ record { object = "folder:team"; relation = "viewer"; user = "group:a#member" }
      ∷ record { object = "folder:team"; relation = "viewer"; user = "guest:*" }
      ∷ record { object = "group:a"; relation = "member"; user = "group:b#member" }
      ∷ record { object = "group:b"; relation = "member"; user = "group:a#member" }
      ∷ record { object = "group:b"; relation = "member"; user = "user:ada" }
      ∷ [];
}

check-shared : check shared "document:plan" "viewer" "user:ada" ≡ true
unfolding check
check-shared = refl

check-shared_stranger : check shared "document:plan" "viewer" "user:eve" ≡ false
unfolding check
check-shared_stranger = refl

check_iff_example :
    (check shared "document:plan" "viewer" "user:ada" ≡ true)
    ↔ ((n : ℕ) × (n ≤ 25) × Member shared "user:ada" n "document:plan" "viewer")
check_iff_example = check_iff shared "document:plan" "viewer" "user:ada"

shared-tidy :
    (t : Tuple)
    → Among t shared.tuples
    → ends_with ":*" t.user ≡ true
    → split_once b'#' t.user ≡ none
unfolding split_once ends_with
shared-tidy t =
    All-Among (λ u. ends_with ":*" u.user ≡ true → split_once b'#' u.user ≡ none) shared.tuples t
      (λ h. refl, (λ h. cc, (λ h. refl, (λ h. cc, (λ h. cc, (λ h. refl, tt))))))

check-list_users_example : (check shared "document:plan" "viewer" "user:ada" ≡ true) ↔ (
    (w : String) × In w (list_users shared "document:plan" "viewer")
    × ((w ≡ "user:ada") ⊎ (fits_wildcard "user:ada" w ≡ true)))
unfolding split_once
check-list_users_example =
    check-list_users shared "user:ada" refl shared-tidy "document:plan" "viewer"

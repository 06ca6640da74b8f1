-- ===== src/Mfa/Recovery/Single.antt =====
-- A recovery code works once, and what is left counts down.
use auth_lab.Prelude.{
  ℕ, zero, suc, ◌+◌, String, ◌≡◌, ◌⊎◌, inl, inr, refl, sym, subst, Bool, true, false, Option, none,
  some, List, [], ◌∷◌, ◌&&◌, not, arith, Bool-cases, ap,
}
use auth_lab.Mfa.Recovery.{Entry, RecoveryCodes, is_used, fits, scan, consume}

-- The entry at an index.
abbrev pub entry_at : List Entry → ℕ → Option Entry
entry_at [] i = none
entry_at (e ∷ entries) zero = some e
entry_at (e ∷ entries) (suc i) = entry_at entries i

-- The indices are distinct.
abbrev pub Distinct : List ℕ → Type 0
Distinct [] = Unit
Distinct (n ∷ used) = (is_used used n ≡ false) × Distinct used

-- Each index names an entry.
abbrev pub Known : List Entry → List ℕ → Type 0
Known entries [] = Unit
Known entries (n ∷ used) = ((e : Entry) × (entry_at entries n ≡ some e)) × Known entries used

pub record IsValid (r : RecoveryCodes) : Type 0 where
  pub distinct : Distinct r.used
  pub known : Known r.hashes r.used

module _ (sha256 : List ℕ → String → List ℕ) where
  scan-done :
      (code : String) (entries : List Entry) (i : ℕ) (used : List ℕ)
      → scan sha256 code entries i true used ≡ (true, used)
  unfolding scan
  scan-done code [] i used = refl
  scan-done code (e ∷ entries) i used = ground (arith, scan-done code entries (suc i) used)

  -- What the loop has found: nothing, or the index of a fitting entry that was not used.
  abbrev Found : String → List Entry → ℕ → List ℕ → Bool × List ℕ → Type 0
  Found code entries i used (false, after) = after ≡ used
  Found code entries i used (true, after) =
      (n : ℕ) × (e : Entry) × (entry_at entries n ≡ some e)
      × (fits sha256 code e ≡ true)
      × (is_used used (i + n) ≡ false)
      × (after ≡ (i + n) ∷ used)

  Found-later :
      (code : String) (e : Entry) (entries : List Entry) (i : ℕ) (used : List ℕ) (r : Bool × List ℕ)
      → Found code entries (suc i) used r
      → Found code (e ∷ entries) i used r
  Found-later code e entries i used (false, after) same = same
  Found-later code e entries i used (true, after) (n, x, at, fit, fresh, is) =
      let here : suc i + n ≡ i + suc n = omega arith in
      (
        suc n,
        x,
        at,
        fit,
        subst (λ k. is_used used k ≡ false) here fresh,
        subst (λ k. after ≡ k ∷ used) here is,
      )

  scan-Found :
      (code : String) (entries : List Entry) (i : ℕ) (used : List ℕ)
      → Found code entries i used (scan sha256 code entries i false used)
  unfolding scan
  scan-Found code [] i used = refl
  scan-Found code (e ∷ entries) i used =
      elim (Bool-cases (fits sha256 code e && not (is_used used i) && not false)) [
        | inl fit ↦
            let here : i ≡ i + zero = omega arith in
            rw (fit, scan, scan-done code entries (suc i) (i ∷ used))
              (
                zero,
                e,
                refl,
                ground arith,
                subst (λ k. is_used used k ≡ false) here (ground arith),
                ap (λ k. k ∷ used) here,
              )
        | inr other ↦
            rw (other, scan)
              (Found-later code e entries i used (scan sha256 code entries (suc i) false used)
                (scan-Found code entries (suc i) used))
      ]

  -- A code that is accepted fits an entry that was not used, and uses up that entry alone; a code
  -- that is refused changes nothing.
  pub consume-Found :
      (code : String) (r : RecoveryCodes)
      → (((consume sha256 code r).0 ≡ true)
          × ((n : ℕ) × (e : Entry) × (entry_at r.hashes n ≡ some e)
              × (fits sha256 code e ≡ true)
              × (is_used r.used n ≡ false)
              × ((consume sha256 code r).1 ≡ record r { used = n ∷ r.used })))
        ⊎ (((consume sha256 code r).0 ≡ false) × ((consume sha256 code r).1 ≡ r))
  unfolding consume
  consume-Found code r =
      go (scan sha256 code r.hashes 0 false r.used) refl (scan-Found code r.hashes 0 r.used)
    where
      go :
          (x : Bool × List ℕ)
          → scan sha256 code r.hashes 0 false r.used ≡ x
          → Found code r.hashes 0 r.used x
          → (((consume sha256 code r).0 ≡ true)
              × ((n : ℕ) × (e : Entry) × (entry_at r.hashes n ≡ some e)
                  × (fits sha256 code e ≡ true)
                  × (is_used r.used n ≡ false)
                  × ((consume sha256 code r).1 ≡ record r { used = n ∷ r.used })))
            ⊎ (((consume sha256 code r).0 ≡ false) × ((consume sha256 code r).1 ≡ r))
      go (false, after) h same = inr (ground arith, ap (λ k. record r { used = k }) (ground arith))
      go (true, after) h (n, e, at, fit, fresh, is) =
          let plain : 0 + n ≡ n = omega arith in
          inl (
            ground arith,
            (
              n,
              e,
              at,
              fit,
              subst (λ k. is_used r.used k ≡ false) plain fresh,
              ap (λ k. record r { used = k }) (ground arith),
            ),
          )

  -- Codes are tried, right ones and wrong ones.
  pub data Attempts (r : RecoveryCodes) : RecoveryCodes → Type 0 where
    start : Attempts r r
    attempt :
        {u : RecoveryCodes} → Attempts r u → (code : String) → Attempts r (consume sha256 code u).1

  -- The entry is used, and the digests are as they were.
  abbrev Spent : List Entry → ℕ → RecoveryCodes → Type 0
  Spent hashes n u = (u.hashes ≡ hashes) × (is_used u.used n ≡ true)

  consume-Spent :
      (hashes : List Entry) (n : ℕ) (code : String) (u : RecoveryCodes)
      → Spent hashes n u
      → Spent hashes n (consume sha256 code u).1
  consume-Spent hashes n code u (same, spent) = elim (consume-Found code u) [
    | inl (_, (m, _, _, _, _, is)) ↦ rw (is) (same, ground arith)
    | inr (_, is) ↦ rw (is) (same, spent)
  ]

  Attempts-Spent :
      (hashes : List Entry) (n : ℕ) {r u : RecoveryCodes}
      → Spent hashes n r
      → Attempts r u
      → Spent hashes n u
  Attempts-Spent hashes n p start = p
  Attempts-Spent hashes n p (attempt {u} a code) =
      consume-Spent hashes n code u (Attempts-Spent hashes n p a)

  -- No two entries fit the code.
  abbrev pub FitsOnce : String → List Entry → Type 0
  FitsOnce code entries =
      (i j : ℕ) (e e' : Entry)
      → entry_at entries i ≡ some e
      → entry_at entries j ≡ some e'
      → fits sha256 code e ≡ true
      → fits sha256 code e' ≡ true
      → i ≡ j

  refused_again :
      (code : String) (r : RecoveryCodes) (n : ℕ) (e : Entry) (u : RecoveryCodes)
      → FitsOnce code r.hashes
      → entry_at r.hashes n ≡ some e
      → fits sha256 code e ≡ true
      → Spent r.hashes n u
      → (consume sha256 code u).0 ≡ false
  refused_again code r n e u once at fit (same, spent) = elim (consume-Found code u) [
    | inr (refused, _) ↦ refused
    | inl (_, (m, e', at', fit', fresh, _)) ↦
        let is : m ≡ n = once m n e' e (subst (λ h. entry_at h m ≡ some e') same at') at fit' fit in
        let stale : is_used u.used m ≡ true = subst (λ k. is_used u.used k ≡ true) (sym is) spent in
        cc
  ]

  -- A code that was accepted is refused from then on, whatever codes are tried in between, if it fits
  -- one entry only.
  pub recovery_once :
      (code : String) (r u : RecoveryCodes)
      → FitsOnce code r.hashes
      → (consume sha256 code r).0 ≡ true
      → Attempts (consume sha256 code r).1 u
      → (consume sha256 code u).0 ≡ false
  recovery_once code r u once accepted between = elim (consume-Found code r) [
    | inr (refused, _) ↦ cc
    | inl (_, (n, e, at, fit, _, is)) ↦
        refused_again code r n e u once at fit
          (Attempts-Spent r.hashes n (rw (is) (refl, ground arith)) between)
  ]

  consume-IsValid :
      (code : String) (r : RecoveryCodes) → IsValid r → IsValid (consume sha256 code r).1
  consume-IsValid code r v = elim (consume-Found code r) [
    | inl (_, (n, e, at, _, fresh, is)) ↦
        rw (is) (record { distinct = (fresh, v.distinct); known = ((e, at), v.known) })
    | inr (_, is) ↦ rw (is) v
  ]

  -- Whatever codes are tried, the used indices stay distinct and each of them names an entry.
  pub Attempts-IsValid : (r u : RecoveryCodes) → IsValid r → Attempts r u → IsValid u
  Attempts-IsValid r u v start = v
  Attempts-IsValid r u v (attempt {u = w} a code) =
      consume-IsValid code w (Attempts-IsValid r w v a)

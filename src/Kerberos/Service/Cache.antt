-- ===== src/Kerberos/Service/Cache.antt =====
-- The replay cache holds an authenticator until its entry expires.
use auth_lab.Prelude.{
  ℕ, ◌+◌, ◌≤◌, ◌<◌, ◌≡◌, ◌⊎◌, inl, inr, Bool, true, ◌&&◌, List, [], ◌∷◌, any, arith, ltb, leb,
  eq_refl, Bool-cases,
}
use auth_lab.Prelude.Int.{ℤ}
use auth_lab.Prelude.Result.{Result, ok, err}
use auth_lab.Kerberos.{EncryptedData, Ticket, EncTicketPart, Authenticator, Env, Error}
use auth_lab.Kerberos.Service.{
  Seen, KerberizedService, is_seen, eq_ℤ, purge_cache, open_request, admit, answer, ap_req,
  remembered, wait,
}

-- The authenticator stands in the cache with the expiry `e`.
unfoldable pub IsCached : Authenticator → ℕ → List Seen → Type 0
IsCached auth e cache = any (λ s. is_seen auth s && leb e s.expiry) cache ≡ true

pub purge_cache-IsCached :
    (auth : Authenticator) (e now : ℕ) (cache : List Seen)
    → now ≤ e
    → IsCached auth e cache
    → IsCached auth e (purge_cache now cache)
unfolding purge_cache IsCached
purge_cache-IsCached auth e now [] le h = h
purge_cache-IsCached auth e now (s ∷ cache) le h =
    ground (arith, purge_cache-IsCached auth e now cache le)

pub IsCached-is_seen :
    (auth : Authenticator) (e : ℕ) (cache : List Seen)
    → IsCached auth e cache
    → any (is_seen auth) cache ≡ true
unfolding IsCached
IsCached-is_seen auth e [] h = cc
IsCached-is_seen auth e (s ∷ cache) h = ground (arith, IsCached-is_seen auth e cache)

pub eq_ℤ-refl : (a : ℤ) → eq_ℤ a a ≡ true
eq_ℤ-refl a = ground arith

pub remembered-IsCached :
    (auth : Authenticator) (e : ℕ) (cache : List Seen) → IsCached auth e (remembered auth e ∷ cache)
unfolding IsCached
remembered-IsCached auth e cache =
    ground (arith, eq_refl auth.client, eq_ℤ-refl auth.timestamp, eq_ℤ-refl auth.sequence_number)

unfoldable pub Held : Authenticator → ℕ → ℕ → List Seen → Type 0
Held auth e now cache = (e < now) ⊎ IsCached auth e cache

pub purge_cache-Held :
    (auth : Authenticator) (e now : ℕ) (cache : List Seen)
    → Held auth e now cache
    → Held auth e now (purge_cache now cache)
unfolding Held
purge_cache-Held auth e now cache (inl over) = inl over
purge_cache-Held auth e now cache (inr cached) = elim (Bool-cases (ltb e now)) [
  | inl over ↦ inl (ground arith)
  | inr open_still ↦ inr (purge_cache-IsCached auth e now cache (ground arith) cached)
]

pub remembered-Held :
    (auth : Authenticator) (e now : ℕ) (cache : List Seen)
    → Held auth e now (remembered auth e ∷ cache)
unfolding Held
remembered-Held auth e now cache = inr (remembered-IsCached auth e cache)

pub cons-Held :
    (auth : Authenticator) (e now : ℕ) (x : Seen) (cache : List Seen)
    → Held auth e now cache
    → Held auth e now (x ∷ cache)
unfolding Held IsCached
cons-Held auth e now x cache (inl over) = inl over
cons-Held auth e now x cache (inr cached) = inr (ground arith)

-- From acceptance on, the cache holds the authenticator until `e`; key, name and window stay.
pub record Holds (auth : Authenticator) (e : ℕ) (s t : KerberizedService) : Type 0 where
  pub key : t.key ≡ s.key
  pub window : t.clock_skew ≡ s.clock_skew
  pub later : s.now ≤ t.now
  pub held : Held auth e t.now t.replay_cache

-- A service at work: requests come, and the clock goes on.
pub data Serves (env : Env) (s : KerberizedService) : KerberizedService → Type 0 where
  start : Serves env s s
  request :
      {t : KerberizedService}
      → Serves env s t
      → (ticket : Ticket) (sealed : EncryptedData) (mutually : Bool)
      → Serves env s (ap_req env ticket sealed mutually t).1
  pause : {t : KerberizedService} → Serves env s t → (seconds : ℕ) → Serves env s (wait seconds t)

pub admit-Holds :
    (env : Env) (mutually : Bool) (ticket : EncTicketPart) (a auth : Authenticator) (e : ℕ)
    (s t : KerberizedService)
    → Holds auth e s t
    → Holds auth e s (admit env mutually ticket a t).1
unfolding admit
admit-Holds env mutually ticket a auth e s t h =
    let purged = purge_cache-Held auth e t.now t.replay_cache h.held in
    elim (Bool-cases (any (is_seen a) (purge_cache t.now t.replay_cache))) [
      | inl again ↦
          rw (again, admit)
            (record { key = h.key; window = h.window; later = h.later; held = purged })
      | inr fresh ↦
          rw (fresh, admit)
            (record {
              key = h.key;
              window = h.window;
              later = h.later;
              held =
                  cons-Held auth e t.now (remembered a (t.now + t.clock_skew))
                    (purge_cache t.now t.replay_cache) purged;
            })
    ]

pub answer-Holds :
    (env : Env) (mutually : Bool) (r : Result Error (EncTicketPart × Authenticator))
    (auth : Authenticator) (e : ℕ) (s t : KerberizedService)
    → Holds auth e s t
    → Holds auth e s (answer env mutually r t).1
unfolding answer
answer-Holds env mutually (err x) auth e s t h = h
answer-Holds env mutually (ok (ticket, a)) auth e s t h =
    admit-Holds env mutually ticket a auth e s t h

pub Serves-Holds :
    (env : Env) (auth : Authenticator) (e : ℕ) (s : KerberizedService) {t u : KerberizedService}
    → Holds auth e s t
    → Serves env t u
    → Holds auth e s u
unfolding ap_req Held
Serves-Holds env auth e s h start = h
Serves-Holds env auth e s h (request {t} w ticket sealed mutually) =
    answer-Holds env mutually (open_request env ticket sealed t) auth e s t
      (Serves-Holds env auth e s h w)
Serves-Holds env auth e s h (pause {t} w seconds) =
    let g = Serves-Holds env auth e s h w in
    record {
      key = g.key;
      window = g.window;
      later = omega (arith, g.later);
      held = elim g.held [ inl over ↦ inl (omega arith) | inr cached ↦ inr cached ];
    }

-- ===== src/Kerberos/Service/Replay.antt =====
-- An authenticator is accepted once, unless it was dated ahead of the service's clock.
use auth_lab.Prelude.{
  ℕ, ◌+◌, ◌≤◌, ◌<◌, ◌≡◌, ◌≢◌, refl, sym, ap, ◌∙◌, subst, inl, inr, Bool, false, Option, [], ◌∷◌,
  any, arith, Bool-cases, if◌then◌else◌,
}
use auth_lab.Prelude.Int.{ℤ, pos, negsuc, pos_part, abs_diff}
use auth_lab.Prelude.Result.{Result, ok, err}
use auth_lab.Kerberos.{EncryptedData, Ticket, EncTicketPart, Authenticator, Env, Error}
use auth_lab.Kerberos.Service.{
  check_ticket, check_authenticator, KerberizedService, AuthenticatedClient, is_seen, purge_cache,
  open_request, admit, answer, ap_req, authenticated, ap_rep, remembered, wait,
}
use auth_lab.Kerberos.Service.Cache.{
  Held, Holds, Serves, purge_cache-Held, remembered-Held, IsCached-is_seen, Serves-Holds,
}
use auth_lab.Kerberos.Service.Opened.{
  open_request-ok, check_authenticator-ok, open_request-later, same_authenticator,
}

-- A request that is accepted was opened, was not in the cache, and is there afterwards.
answer-ok :
    (env : Env) (mutually : Bool) (r : Result Error (EncTicketPart × Authenticator))
    (s : KerberizedService) {c : AuthenticatedClient × Option EncryptedData}
    → (answer env mutually r s).0 ≡ ok c
    → (t : EncTicketPart) × (a : Authenticator) × (r ≡ ok (t, a))
      × (any (is_seen a) (purge_cache s.now s.replay_cache) ≡ false)
      × Holds a (s.now + s.clock_skew) s (answer env mutually r s).1
unfolding answer
answer-ok env mutually (err e) s h = cc
answer-ok env mutually (ok (t, a)) s h =
    elim (Bool-cases (any (is_seen a) (purge_cache s.now s.replay_cache))) [
      | inl again ↦ absurd (let bad = rw (again, admit) at h in cc)
      | inr fresh ↦ (
        t,
        a,
        refl,
        fresh,
        rw (fresh, admit)
            (record {
              key = refl;
              window = refl;
              later = omega arith;
              held =
                  remembered-Held a (s.now + s.clock_skew) s.now (purge_cache s.now s.replay_cache);
            }),
      )
    ]

-- The cache drops an entry no sooner than the window of an authenticator ends that was not dated ahead.
window_over :
    (now later window : ℕ) (timestamp : ℤ)
    → pos_part timestamp ≤ now
    → now + window < later
    → window < abs_diff later timestamp
window_over now later window (pos n) h over = ground arith
window_over now later window (negsuc n) h over = ground arith

-- While an entry is held, no request with its authenticator is fresh and inside the window.
no_second_time :
    (a a' : Authenticator) (now : ℕ) (s u : KerberizedService)
    → pos_part a.timestamp ≤ now
    → a ≡ a'
    → Holds a (now + s.clock_skew) s u
    → abs_diff u.now a'.timestamp ≤ u.clock_skew
    → any (is_seen a') (purge_cache u.now u.replay_cache) ≢ false
unfolding Held
no_second_time a a' now s u not_ahead same h young fresh =
    let young' : abs_diff u.now a.timestamp ≤ s.clock_skew =
      subst (λ w. abs_diff u.now a.timestamp ≤ w) h.window
        (subst (λ (x : Authenticator). abs_diff u.now x.timestamp ≤ u.clock_skew) (sym same)
          young) in
    elim (purge_cache-Held a (now + s.clock_skew) u.now u.replay_cache h.held) [
      | inl over ↦
          absurd (omega (arith, window_over now u.now s.clock_skew a.timestamp not_ahead over))
      | inr cached ↦
          let seen =
            IsCached-is_seen a (now + s.clock_skew) (purge_cache u.now u.replay_cache) cached in
          cc (
            seen,
            fresh,
            ap (λ (x : Authenticator). any (is_seen x) (purge_cache u.now u.replay_cache)) same,
          )
    ]

-- A request whose authenticator was not dated ahead of the service's clock is accepted once: whatever
-- requests come in between, and however far the clock has gone on, the service refuses it later.
pub ap_req_once :
    (env : Env) (s u : KerberizedService) (ticket : Ticket) (sealed : EncryptedData)
    (mutually mutually' : Bool) (t : EncTicketPart) (a : Authenticator)
    (c c' : AuthenticatedClient × Option EncryptedData)
    → open_request env ticket sealed s ≡ ok (t, a)
    → pos_part a.timestamp ≤ s.now
    → (ap_req env ticket sealed mutually s).0 ≡ ok c
    → Serves env (ap_req env ticket sealed mutually s).1 u
    → (ap_req env ticket sealed mutually' u).0 ≢ ok c'
unfolding ap_req Held
ap_req_once env s u ticket sealed mutually mutually' t a c c' opened not_ahead first w again =
    let (t1, a1, opened1, fresh1, held1) =
      answer-ok env mutually (open_request env ticket sealed s) s first in
    let (t2, a2, opened2, fresh2, held2) =
      answer-ok env mutually' (open_request env ticket sealed u) u again in
    let kept = Serves-Holds env a1 (s.now + s.clock_skew) s held1 w in
    let same : a ≡ a1 = cc (opened, opened1) in
    let young =
      (check_authenticator-ok env t2 sealed u (open_request-ok env ticket sealed u opened2).1).1 in
    no_second_time a1 a2 s.now s u
      (subst (λ (x : Authenticator). pos_part x.timestamp ≤ s.now) same not_ahead)
      (same_authenticator env ticket sealed s u kept.key opened1 opened2) kept young fresh2

-- A request is accepted where it opens and the cache is empty once it is purged.
abbrev pub after_first :
    EncTicketPart → Authenticator → Bool → KerberizedService → KerberizedService
after_first t a mutually s = record s {
  replay_cache = remembered a (s.now + s.clock_skew) ∷ [];
  draws = if mutually then s.draws + 1 else s.draws;
}

pub ap_req-first :
    (env : Env) (s : KerberizedService) (ticket : Ticket) (sealed : EncryptedData) (mutually : Bool)
    {t : EncTicketPart} {a : Authenticator}
    → open_request env ticket sealed s ≡ ok (t, a)
    → purge_cache s.now s.replay_cache ≡ []
    → ap_req env ticket sealed mutually s
      ≡ (ok (authenticated t, ap_rep env mutually t a s.draws), after_first t a mutually s)
unfolding ap_req answer admit
ap_req-first env s ticket sealed mutually opened empty = rw (opened, answer, empty, admit) refl

pub purge_cache-nil : (now : ℕ) → purge_cache now [] ≡ []
unfolding purge_cache
purge_cache-nil now = refl

purge_cache-over :
    (a : Authenticator) (e now : ℕ) → e < now → purge_cache now (remembered a e ∷ []) ≡ []
unfolding purge_cache
purge_cache-over a e now over = ground arith

-- The cache plays no part in the checks before it.
open_request-after_first :
    (env : Env) (ticket : Ticket) (sealed : EncryptedData) (s : KerberizedService)
    (t : EncTicketPart) (a : Authenticator) (mutually : Bool)
    → open_request env ticket sealed (after_first t a mutually s) ≡ open_request env ticket sealed s
unfolding open_request check_ticket check_authenticator
open_request-after_first env ticket sealed s t a mutually = refl

-- The entry of an authenticator that was dated `ahead` seconds ahead is dropped while its window is
-- open: where the cache is otherwise empty and the ticket is still good, the same request is accepted
-- a second time when the clock has gone on by the two together.
pub ap_req_twice :
    (env : Env) (s : KerberizedService) (ticket : Ticket) (sealed : EncryptedData) (mutually : Bool)
    (t : EncTicketPart) (a : Authenticator) (ahead : ℕ)
    → open_request env ticket sealed s ≡ ok (t, a)
    → s.replay_cache ≡ []
    → a.timestamp ≡ pos (s.now + ahead)
    → 1 ≤ ahead
    → s.now + ahead + s.clock_skew ≤ t.end_time
    → (c : AuthenticatedClient × Option EncryptedData) × (c' : AuthenticatedClient
        × Option EncryptedData)
      × ((ap_req env ticket sealed mutually s).0 ≡ ok c)
      × ((ap_req env ticket sealed mutually
            (wait (ahead + s.clock_skew) (ap_req env ticket sealed mutually s).1)).0
          ≡ ok c')
ap_req_twice env s ticket sealed mutually t a ahead opened empty dated some_time good =
    let seconds = ahead + s.clock_skew in
    let s1 = after_first t a mutually s in
    let first =
      ap_req-first env s ticket sealed mutually opened
        (subst (λ cache. purge_cache s.now cache ≡ []) (sym empty) (purge_cache-nil s.now)) in
    let reopened =
      open_request-later env s1 ticket sealed seconds
        (open_request-after_first env ticket sealed s t a mutually ∙ opened) (omega arith)
        (subst (λ n. abs_diff (s.now + seconds) n ≤ s.clock_skew) (sym dated) (ground arith)) in
    let again =
      ap_req-first env (wait seconds s1) ticket sealed mutually reopened
        (purge_cache-over a (s.now + s.clock_skew) (s.now + seconds) (omega arith)) in
    (
      (authenticated t, ap_rep env mutually t a s.draws),
      (authenticated t, ap_rep env mutually t a s1.draws),
      ap (λ x. x.0) first,
      ap (λ x. (ap_req env ticket sealed mutually (wait seconds x.1)).0) first
          ∙ ap (λ x. x.0) again,
    )

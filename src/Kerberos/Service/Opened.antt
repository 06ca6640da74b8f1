-- ===== src/Kerberos/Service/Opened.antt =====
-- What `ap_req` checks before its replay cache: what an opened request shows, and for how long it opens.
use auth_lab.Prelude.{ℕ, ◌+◌, ◌≤◌, ◌≡◌, refl, ap, ◌∙◌, subst, arith, eq_iff}
use auth_lab.Prelude.Int.{abs_diff}
use auth_lab.Prelude.Result.{ok, >>=-eq-ok}
use auth_lab.Kerberos.{
  EncryptedData, Ticket, EncTicketPart, Authenticator, Env, open_ticket, open_authenticator,
}
use auth_lab.Kerberos.Service.{
  check_ticket, check_authenticator, KerberizedService, open_request, wait,
}

-- What a request that was opened shows.
pub check_ticket-ok :
    (env : Env) (ticket : Ticket) (s : KerberizedService) {t : EncTicketPart}
    → check_ticket env ticket s ≡ ok t
    → (open_ticket env s.key ticket.enc_part ≡ ok t) × (s.now ≤ t.end_time)
unfolding check_ticket
check_ticket-ok env ticket s h = (ground arith, ground arith)

pub check_authenticator-ok :
    (env : Env) (t : EncTicketPart) (sealed : EncryptedData) (s : KerberizedService)
    {a : Authenticator}
    → check_authenticator env t sealed s ≡ ok a
    → (open_authenticator env t.session_key sealed ≡ ok a)
      × (abs_diff s.now a.timestamp ≤ s.clock_skew)
unfolding check_authenticator
check_authenticator-ok env t sealed s h = (ground arith, ground arith)

pub open_request-ok :
    (env : Env) (ticket : Ticket) (sealed : EncryptedData) (s : KerberizedService)
    {t : EncTicketPart} {a : Authenticator}
    → open_request env ticket sealed s ≡ ok (t, a)
    → (check_ticket env ticket s ≡ ok t) × (check_authenticator env t sealed s ≡ ok a)
unfolding open_request
open_request-ok env ticket sealed s {t} {a} h =
    let (t', checked, h1) = >>=-eq-ok (check_ticket env ticket s) _ h in
    let (a', read, h2) = >>=-eq-ok (check_authenticator env t' sealed s) _ h1 in
    let same : t' ≡ t = cc h2 in
    let same_a : a' ≡ a = cc h2 in
    (
      checked ∙ ap ok same,
      subst (λ x. check_authenticator env x sealed s ≡ ok a) same (read ∙ ap ok same_a),
    )

-- Under one key the same bytes open to the same authenticator.
pub same_authenticator :
    (env : Env) (ticket : Ticket) (sealed : EncryptedData) (s u : KerberizedService)
    {t t' : EncTicketPart} {a a' : Authenticator}
    → u.key ≡ s.key
    → open_request env ticket sealed s ≡ ok (t, a)
    → open_request env ticket sealed u ≡ ok (t', a')
    → a ≡ a'
same_authenticator env ticket sealed s u {t} {t'} {a} {a'} same_key h h' =
    let (checked, read) = open_request-ok env ticket sealed s h in
    let (checked', read') = open_request-ok env ticket sealed u h' in
    let opened = (check_ticket-ok env ticket s checked).0 in
    let opened' = (check_ticket-ok env ticket u checked').0 in
    let same : t ≡ t' =
      cc (opened, opened', ap (λ k. open_ticket env k ticket.enc_part) same_key) in
    let shown = (check_authenticator-ok env t sealed s read).0 in
    let shown' = (check_authenticator-ok env t' sealed u read').0 in
    cc (shown, shown', ap (λ (x : EncTicketPart). open_authenticator env x.session_key sealed) same)

-- A request that opens goes on doing so while ticket and authenticator are good.
pub check_ticket-later :
    (env : Env) (s : KerberizedService) (ticket : Ticket) (seconds : ℕ) {t : EncTicketPart}
    → check_ticket env ticket s ≡ ok t
    → s.now + seconds ≤ t.end_time
    → check_ticket env ticket (wait seconds s) ≡ ok t
unfolding check_ticket
check_ticket-later env s ticket seconds h good = ground arith

pub check_authenticator-later :
    (env : Env) (s : KerberizedService) (t : EncTicketPart) (sealed : EncryptedData) (seconds : ℕ)
    {a : Authenticator}
    → check_authenticator env t sealed s ≡ ok a
    → abs_diff (s.now + seconds) a.timestamp ≤ s.clock_skew
    → check_authenticator env t sealed (wait seconds s) ≡ ok a
unfolding check_authenticator
check_authenticator-later env s t sealed seconds h young = ground arith

pub open_request-later :
    (env : Env) (s : KerberizedService) (ticket : Ticket) (sealed : EncryptedData) (seconds : ℕ)
    {t : EncTicketPart} {a : Authenticator}
    → open_request env ticket sealed s ≡ ok (t, a)
    → s.now + seconds ≤ t.end_time
    → abs_diff (s.now + seconds) a.timestamp ≤ s.clock_skew
    → open_request env ticket sealed (wait seconds s) ≡ ok (t, a)
unfolding open_request
open_request-later env s ticket sealed seconds {t} h good young =
    let (checked, read) = open_request-ok env ticket sealed s h in
    rw
      (
        check_ticket-later env s ticket seconds checked good,
        check_authenticator-later env s t sealed seconds read young,
      )
      refl

-- A ticket of the service that its key opens passes while it is good, and so does an authenticator.
pub check_ticket-opens :
    (env : Env) (ticket : Ticket) (s : KerberizedService) (t : EncTicketPart)
    → ticket.service ≡ s.name
    → open_ticket env s.key ticket.enc_part ≡ ok t
    → s.now ≤ t.end_time
    → t.start_time ≤ s.now + s.clock_skew
    → check_ticket env ticket s ≡ ok t
unfolding check_ticket
check_ticket-opens env ticket s t named opened alive begun =
    ground (arith, eq_iff ticket.service s.name)

pub check_authenticator-opens :
    (env : Env) (t : EncTicketPart) (sealed : EncryptedData) (s : KerberizedService)
    (a : Authenticator)
    → open_authenticator env t.session_key sealed ≡ ok a
    → a.client ≡ t.client
    → abs_diff s.now a.timestamp ≤ s.clock_skew
    → check_authenticator env t sealed s ≡ ok a
unfolding check_authenticator
check_authenticator-opens env t sealed s a opened client young =
    ground (arith, eq_iff a.client t.client)

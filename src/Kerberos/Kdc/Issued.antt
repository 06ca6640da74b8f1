-- ===== src/Kerberos/Kdc/Issued.antt =====
-- What a service ticket takes over from the ticket-granting ticket.
use auth_lab.Prelude.{◌+◌, ◌≤◌, ◌≡◌, refl, ap, inl, inr, ◌∙◌, String, some, arith, eq_iff}
use auth_lab.Prelude.Int.{abs_diff}
use auth_lab.Prelude.Result.{ok, Result-cases}
use auth_lab.Crypto.Bytes.{Bytes}
use auth_lab.Dict.{get}
use auth_lab.Kerberos.{
  EncryptedData, Ticket, EncTicketPart, Authenticator, Env, OpensSealed, open_ticket,
  open_authenticator, tgt_service,
}
use auth_lab.Kerberos.Kdc.{Kdc, Principal, Reply, check_tgs, issue_ticket, service_part, tgs_req}
use auth_lab.Kerberos.Client.Replies.{open_ticket-encrypt}

-- What a request shows that passes the checks.
pub record Passes (env : Env) (tgt : Ticket) (sealed : EncryptedData) (service_name : String)
    (k : Kdc) (enc_ticket : EncTicketPart) (service : Principal) : Type 0 where
  pub granting : tgt.service ≡ tgt_service
  pub proved :
      (a : Authenticator) × (open_authenticator env enc_ticket.session_key sealed ≡ ok a)
      × (a.client ≡ enc_ticket.client)
      × (abs_diff k.now a.timestamp ≤ k.clock_skew)
  pub opened : open_ticket env k.krbtgt_key tgt.enc_part ≡ ok enc_ticket
  pub alive : k.now ≤ enc_ticket.end_time
  pub known : get k.principals service_name ≡ some service

check_tgs-Passes :
    (env : Env) (tgt : Ticket) (sealed : EncryptedData) (service_name : String) (k : Kdc)
    (enc_ticket : EncTicketPart) (service : Principal)
    → check_tgs env tgt sealed service_name k ≡ ok (enc_ticket, service)
    → Passes env tgt sealed service_name k enc_ticket service
unfolding check_tgs
check_tgs-Passes env tgt sealed service_name k enc_ticket service h = record {
  granting = ground (arith, eq_iff tgt.service tgt_service);
  proved = elim (Result-cases (open_authenticator env enc_ticket.session_key sealed)) [
    | inl (e, refused) ↦ absurd (ground arith)
    | inr (a, read) ↦ (a, read, ground (arith, eq_iff a.client enc_ticket.client), ground arith)
  ];
  opened = ground arith;
  alive = ground arith;
  known = ground arith;
}

-- The part of a service ticket that the KDC seals is within the ticket-granting ticket.
pub record Within (enc_ticket part : EncTicketPart) (k : Kdc) : Type 0 where
  pub client : part.client ≡ enc_ticket.client
  pub groups : part.groups ≡ enc_ticket.groups
  pub flags : part.flags ≡ enc_ticket.flags
  pub authenticated_then : part.auth_time ≡ enc_ticket.auth_time
  pub no_longer : part.end_time ≤ enc_ticket.end_time
  pub bounded : part.end_time ≤ k.now + k.ticket_lifetime
  pub not_over : k.now ≤ part.end_time

service_part-Within :
    (enc_ticket : EncTicketPart) (session_key : Bytes) (k : Kdc)
    → k.now ≤ enc_ticket.end_time
    → Within enc_ticket (service_part enc_ticket session_key k) k
service_part-Within enc_ticket session_key k alive = record {
  client = refl;
  groups = refl;
  flags = refl;
  authenticated_then = refl;
  no_longer = ground arith;
  bounded = ground arith;
  not_over = ground arith;
}

pub tgs_req-ok :
    (env : Env) (tgt : Ticket) (sealed : EncryptedData) (service_name : String) (k : Kdc)
    (enc_ticket : EncTicketPart) (service : Principal)
    → check_tgs env tgt sealed service_name k ≡ ok (enc_ticket, service)
    → tgs_req env tgt sealed service_name k ≡ (
      ok (issue_ticket env enc_ticket service_name service k).0,
      (issue_ticket env enc_ticket service_name service k).1,
    )
unfolding tgs_req
tgs_req-ok env tgt sealed service_name k enc_ticket service passed = rw (passed, tgs_req) refl

tgs_req-issued :
    (env : Env) (tgt : Ticket) (sealed : EncryptedData) (service_name : String) (k : Kdc)
    {reply : Reply}
    → (tgs_req env tgt sealed service_name k).0 ≡ ok reply
    → (enc_ticket : EncTicketPart) × (service : Principal) × (check_tgs env tgt sealed service_name
          k
        ≡ ok (enc_ticket, service))
      × (reply ≡ (issue_ticket env enc_ticket service_name service k).0)
unfolding tgs_req
tgs_req-issued env tgt sealed service_name k h =
    elim (Result-cases (check_tgs env tgt sealed service_name k)) [
      | inl (e, refused) ↦ absurd (let bad = rw (refused, tgs_req) at h in cc)
      | inr ((enc_ticket, service), passed) ↦ (
        enc_ticket,
        service,
        passed,
        cc (h, ap (λ x. x.0) (tgs_req-ok env tgt sealed service_name k enc_ticket service passed)),
      )
    ]

-- A service ticket that the KDC returns was asked for with a ticket-granting ticket that the KDC's key
-- opens and that has not ended, with an authenticator under its session key that names its client and
-- is dated within the allowed skew, for a known service. That service's key opens it, to the client,
-- the groups, the flags and the time of the login of the other ticket, and it ends no later than that
-- ticket and than the KDC's own lifetime allows. What a key seals, it opens.
pub tgs_req-Within :
    (env : Env) (tgt : Ticket) (sealed : EncryptedData) (service_name : String) (k : Kdc)
    (reply : Reply)
    → OpensSealed env
    → (tgs_req env tgt sealed service_name k).0 ≡ ok reply
    → (enc_ticket : EncTicketPart) × (service : Principal) × (part : EncTicketPart) × Passes env tgt
        sealed service_name k enc_ticket service
      × (reply.ticket.service ≡ service_name)
      × (open_ticket env service.key reply.ticket.enc_part ≡ ok part)
      × Within enc_ticket part k
unfolding issue_ticket
tgs_req-Within env tgt sealed service_name k reply opens h =
    let (enc_ticket, service, passed, same) = tgs_req-issued env tgt sealed service_name k h in
    let passes = check_tgs-Passes env tgt sealed service_name k enc_ticket service passed in
    let part = service_part enc_ticket (env.random_key k.draws) k in
    (
      enc_ticket,
      service,
      part,
      passes,
      ap (λ (r : Reply). r.ticket.service) same,
      ap (λ (r : Reply). open_ticket env service.key r.ticket.enc_part) same
          ∙ open_ticket-encrypt env opens service.key part service.kvno (k.draws + 1),
      service_part-Within enc_ticket (env.random_key k.draws) k passes.alive,
    )

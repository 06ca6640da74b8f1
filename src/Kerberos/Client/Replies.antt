-- ===== src/Kerberos/Client/Replies.antt =====
-- What the KDC answers, as a client reads it that knows its key.
use auth_lab.Prelude.{ℕ, ◌+◌, ◌≤◌, ◌≡◌, refl, String, true, none, some, [], arith, eq_iff}
use Prim.Native.String.{◌++◌}
use auth_lab.Prelude.Int.{pos, abs_diff}
use auth_lab.Prelude.Result.{ok}
use auth_lab.Dict.{get}
use auth_lab.Crypto.Bytes.{Bytes}
use auth_lab.Kerberos.{
  Ticket, EncTicketPart, Authenticator, Plain, ticket_part, authenticator, key_part, stamp, Env,
  OpensSealed, encrypt, decrypt, open_ticket, open_authenticator, tgt_service,
}
use auth_lab.Kerberos.Kdc.{
  Kdc, Principal, check_preauth, warn, issue_tgt, as_req, check_tgs, issue_ticket, min,
}
use auth_lab.Kerberos.Client.{
  CachedTicket, KerberosClient, drawn, read_reply, kinit_with, make_authenticator,
}

-- The ticket-granting ticket, as the client keeps it.
unfoldable pub tgt_of : Env → Principal → Kdc → CachedTicket
tgt_of env p k = record {
  ticket = (issue_tgt env p k).0.ticket;
  session_key = env.random_key k.draws;
  end_time = k.now + k.ticket_lifetime;
}

unfoldable pub after_kinit : Env → Principal → KerberosClient → KerberosClient
after_kinit env p c = record (drawn c) {
  long_term_key = some p.key;
  kdc = (issue_tgt env p (drawn c).kdc).1;
  tgt = some (tgt_of env p (drawn c).kdc);
}

-- What the service ticket says.
unfoldable pub ticket_of : Env → EncTicketPart → String → Principal → Kdc → CachedTicket
ticket_of env part service_name q k = record {
  ticket = (issue_ticket env part service_name q k).0.ticket;
  session_key = env.random_key k.draws;
  end_time = min (k.now + k.ticket_lifetime) part.end_time;
}

-- The authenticator of a client.
unfoldable pub auth_of : Env → KerberosClient → Authenticator
auth_of env c = record {
  client = c.principal ++ ("@" ++ c.realm);
  realm = c.realm;
  timestamp = pos c.now;
  microseconds = pos 0;
  checksum = [];
  subkey = none;
  sequence_number = pos (env.random_number c.kdc.draws);
}

module _ (env : Env) (opens : OpensSealed env) where
  pub decrypt-encrypt :
      (key : Bytes) (plain : Plain) (kvno draw : ℕ)
      → decrypt env key (encrypt env key plain kvno draw) ≡ ok plain
  unfolding decrypt encrypt
  decrypt-encrypt key plain kvno draw = rw (opens key plain draw) refl

  pub check_preauth-ok :
      (p : Principal) (k : Kdc) (time kvno draw : ℕ)
      → abs_diff k.now (pos time) ≤ k.clock_skew
      → check_preauth env p (some (encrypt env p.key (stamp (pos time)) kvno draw)) k ≡ ok tt
  unfolding check_preauth
  check_preauth-ok p k time kvno draw agree =
      ground (arith, decrypt-encrypt p.key (stamp (pos time)) kvno draw)

  -- The answer to a client that pre-authenticates.
  pub as_req-ok :
      (p : Principal) (k : Kdc) (name : String) (time kvno draw : ℕ)
      → get k.principals name ≡ some p
      → p.require_preauth ≡ true
      → abs_diff k.now (pos time) ≤ k.clock_skew
      → as_req env name (some (encrypt env p.key (stamp (pos time)) kvno draw)) k
        ≡ (ok (issue_tgt env p k).0, (issue_tgt env p k).1)
  unfolding as_req
  as_req-ok p k name time kvno draw known careful agree =
      let same : warn name p k ≡ k = ground arith in
      rw (known, as_req, check_preauth-ok p k time kvno draw agree, same) refl

  pub read_reply-issue_tgt :
      (p : Principal) (k : Kdc) → read_reply env p.key (issue_tgt env p k).0 ≡ ok (tgt_of env p k)
  unfolding read_reply issue_tgt tgt_of
  read_reply-issue_tgt p k =
      rw
        (decrypt-encrypt p.key (key_part (env.random_key k.draws) (k.now + k.ticket_lifetime)) 1
          (k.draws + 2))
        refl

  pub kinit_with-ok :
      (p : Principal) (c : KerberosClient)
      → get c.kdc.principals c.principal ≡ some p
      → p.require_preauth ≡ true
      → abs_diff c.kdc.now (pos c.now) ≤ c.kdc.clock_skew
      → kinit_with env p.key c ≡ (ok (tgt_of env p (drawn c).kdc), after_kinit env p c)
  unfolding kinit_with after_kinit
  kinit_with-ok p c known careful agree =
      let answered =
        as_req-ok p (drawn c).kdc c.principal c.now 1 c.kdc.draws known careful agree in
      rw (answered, read_reply-issue_tgt p (drawn c).kdc) refl

  pub read_reply-issue_ticket :
      (part : EncTicketPart) (service_name : String) (q : Principal) (k : Kdc)
      → read_reply env part.session_key (issue_ticket env part service_name q k).0
        ≡ ok (ticket_of env part service_name q k)
  unfolding read_reply issue_ticket ticket_of
  read_reply-issue_ticket part service_name q k =
      rw
        (decrypt-encrypt part.session_key
          (key_part (env.random_key k.draws) (min (k.now + k.ticket_lifetime) part.end_time)) 1
          (k.draws + 2))
        refl

  pub open_ticket-encrypt :
      (key : Bytes) (part : EncTicketPart) (kvno draw : ℕ)
      → open_ticket env key (encrypt env key (ticket_part part) kvno draw) ≡ ok part
  unfolding open_ticket
  open_ticket-encrypt key part kvno draw =
      rw (decrypt-encrypt key (ticket_part part) kvno draw) refl

  pub open_authenticator-encrypt :
      (key : Bytes) (a : Authenticator) (kvno draw : ℕ)
      → open_authenticator env key (encrypt env key (authenticator a) kvno draw) ≡ ok a
  unfolding open_authenticator
  open_authenticator-encrypt key a kvno draw =
      rw (decrypt-encrypt key (authenticator a) kvno draw) refl

  pub open_authenticator-make :
      (key : Bytes) (c : KerberosClient)
      → open_authenticator env key (make_authenticator env key c) ≡ ok (auth_of env c)
  unfolding make_authenticator auth_of
  open_authenticator-make key c = open_authenticator-encrypt key (auth_of env c) 1 (c.kdc.draws + 1)

  -- The KDC's checks of a request for a service ticket.
  pub check_tgs-ok :
      (part : EncTicketPart) (tgt : Ticket) (service_name : String) (q : Principal) (k : Kdc)
      (c : KerberosClient)
      → tgt.service ≡ tgt_service
      → open_ticket env k.krbtgt_key tgt.enc_part ≡ ok part
      → k.now ≤ part.end_time
      → part.client ≡ c.principal ++ ("@" ++ c.realm)
      → abs_diff k.now (pos c.now) ≤ k.clock_skew
      → get k.principals service_name ≡ some q
      → check_tgs env tgt (make_authenticator env part.session_key c) service_name k ≡ ok (part, q)
  unfolding check_tgs auth_of
  check_tgs-ok part tgt service_name q k c is_tgt opened alive client agree known = ground (
    arith,
    open_authenticator-make part.session_key c,
    eq_iff tgt.service tgt_service,
    eq_iff (c.principal ++ ("@" ++ c.realm)) part.client,
  )

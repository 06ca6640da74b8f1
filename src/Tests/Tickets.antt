-- ===== src/Tests/Tickets.antt =====
-- The theorems on Kerberos, for Ada, who wants to print.
use auth_lab.Prelude.{ℕ, ◌≤◌, ◌≡◌, ◌≢◌, refl, ap, true, false, Option, none, some, [], ◌∷◌, arith}
use auth_lab.Prelude.Int.{pos, abs_diff}
use auth_lab.Prelude.Result.{ok}
use auth_lab.Dict.{get}
use auth_lab.Kerberos.{
  open_ticket, EncryptedData, Ticket, EncTicketPart, Authenticator, ticket_part, authenticator,
  encrypt,
}
use auth_lab.Kerberos.Kdc.{Principal, tgt_part, tgs_req, issue_ticket}
use auth_lab.Kerberos.Kdc.Issued.{Passes, Within, tgs_req-ok, tgs_req-Within}
use auth_lab.Kerberos.Client.{
  make_authenticator, KerberosClient, kinit, build_ap_req, verify_ap_rep,
}
use auth_lab.Kerberos.Client.Replies.{check_tgs-ok, open_ticket-encrypt, open_authenticator-encrypt}
use auth_lab.Kerberos.Client.Login.{IsReady, login}
use auth_lab.Kerberos.Service.{
  KerberizedService, AuthenticatedClient, open_request, ap_req, ap_rep, authenticated, wait,
}
use auth_lab.Kerberos.Service.Cache.{start, request, pause}
use auth_lab.Kerberos.Service.Opened.{check_ticket-opens, check_authenticator-opens}
use auth_lab.Kerberos.Service.Replay.{ap_req_once, ap_req_twice, ap_req-first, purge_cache-nil}
use auth_lab.Tests.Sealing.{env, env-OpensSealed}

abbrev ada : Principal
ada = record {
  name = "ada";
  realm = "LAB";
  key = env.string_to_key "lovelace" "LABada";
  kvno = 1;
  require_preauth = true;
  is_service = false;
  groups = "printing" ∷ [];
}

abbrev printer : Principal
printer = record {
  name = "print/host";
  realm = "LAB";
  key = 7 ∷ [];
  kvno = 1;
  require_preauth = true;
  is_service = true;
  groups = [];
}

abbrev ada_client : KerberosClient
ada_client = record {
  principal = "ada";
  realm = "LAB";
  kdc = record {
    realm = "LAB";
    now = 1000;
    principals = ("ada", ada) ∷ ("print/host", printer) ∷ [];
    ticket_lifetime = 36000;
    clock_skew = 300;
    krbtgt_key = 9 ∷ [];
    events = [];
    draws = 0;
  };
  now = 1010;
  long_term_key = none;
  tgt = none;
  service_tickets = [];
}

abbrev print_service : KerberizedService
print_service = record {
  name = "print/host";
  realm = "LAB";
  key = 7 ∷ [];
  now = 1020;
  clock_skew = 300;
  replay_cache = [];
  draws = 0;
}

ready : IsReady env "lovelace" "print/host" ada_client ada printer print_service
unfolding get
ready = record {
  known = refl;
  named = refl;
  at_home = refl;
  careful = refl;
  keyed = refl;
  no_ticket = refl;
  service_known = refl;
  service_named = refl;
  service_keyed = refl;
  clocks_agree = omega arith;
  service_agrees = omega arith;
  in_time = omega arith;
  service_in_time = omega arith;
  begun = omega arith;
  none_seen = refl;
}

login_example :
    (ticket : Ticket) × (sealed : EncryptedData) × (a : AuthenticatedClient) × (rep : EncryptedData)
    × ((build_ap_req env "print/host" (kinit env "lovelace" ada_client).1).0 ≡ ok (ticket, sealed))
    × ((ap_req env ticket sealed true print_service).0 ≡ ok (a, some rep))
    × (a.name ≡ "ada@LAB")
    × (a.groups ≡ "printing" ∷ [])
    × (verify_ap_rep env "print/host" rep
          (build_ap_req env "print/host" (kinit env "lovelace" ada_client).1).1
        ≡ true)
login_example =
    login env "lovelace" "print/host" ada_client ada printer print_service env-OpensSealed ready

-- A request whose authenticator is dated `time`.
abbrev claims : EncTicketPart
claims = record {
  client = "ada@LAB";
  realm = "LAB";
  session_key = 5 ∷ [];
  auth_time = 1000;
  start_time = 1000;
  end_time = 37000;
  renew_till = 0;
  flags = [];
  groups = "printing" ∷ [];
}

abbrev dated : ℕ → Authenticator
dated time = record {
  client = "ada@LAB";
  realm = "LAB";
  timestamp = pos time;
  microseconds = pos 0;
  checksum = [];
  subkey = none;
  sequence_number = pos 3;
}

abbrev ada_ticket : Ticket
ada_ticket = record {
  realm = "LAB";
  service = "print/host";
  enc_part = encrypt env (7 ∷ []) (ticket_part claims) 1 0;
}

abbrev sealed_at : ℕ → EncryptedData
sealed_at time = encrypt env (5 ∷ []) (authenticator (dated time)) 1 1

opens_at :
    (time : ℕ)
    → abs_diff 1020 (pos time) ≤ 300
    → open_request env ada_ticket (sealed_at time) print_service ≡ ok (claims, dated time)
unfolding open_request
opens_at time young =
    let opened =
      check_ticket-opens env ada_ticket print_service claims refl
        (open_ticket-encrypt env env-OpensSealed (7 ∷ []) claims 1 0) (omega arith) (omega arith) in
    let read =
      check_authenticator-opens env claims (sealed_at time) print_service (dated time)
        (open_authenticator-encrypt env env-OpensSealed (5 ∷ []) (dated time) 1 1) refl young in
    rw (opened, read) refl

accepted :
    (ap_req env ada_ticket (sealed_at 1015) false print_service).0 ≡ ok (authenticated claims, none)
unfolding ap_rep
accepted =
    ap (λ x. x.0)
      (ap_req-first env print_service ada_ticket (sealed_at 1015) false
        (opens_at 1015 (omega arith)) (purge_cache-nil 1020))

-- Another request, and a pause, come between the two attempts.
ap_req_once_example :
    (ap_req env ada_ticket (sealed_at 1015) true (
      wait 100
        (ap_req env ada_ticket
          (sealed_at 1018)
          false
          (ap_req env ada_ticket (sealed_at 1015) false print_service).1).1)).0
    ≢ ok (authenticated claims, none)
ap_req_once_example =
    ap_req_once env print_service
      (wait 100
        (ap_req env ada_ticket (sealed_at 1018) false
          (ap_req env ada_ticket (sealed_at 1015) false print_service).1).1)
      ada_ticket (sealed_at 1015) false true claims (dated 1015) (authenticated claims, none)
      (authenticated claims, none) (opens_at 1015 (omega arith)) (omega arith) accepted
      (pause (request start ada_ticket (sealed_at 1018) false) 100)

-- The authenticator is dated a minute ahead of the service's clock.
ap_req_twice_example :
    (c : AuthenticatedClient × Option EncryptedData) × (c' : AuthenticatedClient
      × Option EncryptedData)
    × ((ap_req env ada_ticket (sealed_at 1080) false print_service).0 ≡ ok c)
    × ((ap_req env ada_ticket
          (sealed_at 1080)
          false
          (wait 360 (ap_req env ada_ticket (sealed_at 1080) false print_service).1)).0
        ≡ ok c')
ap_req_twice_example =
    ap_req_twice env print_service ada_ticket (sealed_at 1080) false claims (dated 1080) 60
      (opens_at 1080 (omega arith)) refl refl (omega arith) (omega arith)

-- Ada asks the KDC for a ticket of the printer.
abbrev tgt_claims : EncTicketPart
tgt_claims = tgt_part ada (1 ∷ []) ada_client.kdc

abbrev tgt : Ticket
tgt = record {
  realm = "LAB";
  service = "krbtgt";
  enc_part = encrypt env (9 ∷ []) (ticket_part tgt_claims) 1 0;
}

granted :
    tgs_req env tgt (make_authenticator env (1 ∷ []) ada_client) "print/host" ada_client.kdc ≡ (
      ok (issue_ticket env tgt_claims "print/host" printer ada_client.kdc).0,
      (issue_ticket env tgt_claims "print/host" printer ada_client.kdc).1,
    )
unfolding get
granted =
    tgs_req-ok env tgt (make_authenticator env (1 ∷ []) ada_client) "print/host" ada_client.kdc
      tgt_claims printer
      (check_tgs-ok env env-OpensSealed tgt_claims tgt "print/host" printer ada_client.kdc
        ada_client refl (open_ticket-encrypt env env-OpensSealed (9 ∷ []) tgt_claims 1 0)
        (omega arith) refl (omega arith) refl)

tgs_req-Within_example :
    (enc_ticket : EncTicketPart) × (service : Principal) × (part : EncTicketPart) × Passes env tgt
      (make_authenticator env (1 ∷ []) ada_client)
      "print/host"
      ada_client.kdc
      enc_ticket
      service
    × ((issue_ticket env tgt_claims "print/host" printer ada_client.kdc).0.ticket.service
        ≡ "print/host")
    × (open_ticket env service.key
          (issue_ticket env tgt_claims "print/host" printer ada_client.kdc).0.ticket.enc_part
        ≡ ok part)
    × Within enc_ticket part ada_client.kdc
unfolding issue_ticket
tgs_req-Within_example =
    tgs_req-Within env tgt (make_authenticator env (1 ∷ []) ada_client) "print/host" ada_client.kdc
      (issue_ticket env tgt_claims "print/host" printer ada_client.kdc).0 env-OpensSealed
      (ap (λ x. x.0) granted)

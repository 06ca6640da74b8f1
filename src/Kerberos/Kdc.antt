-- ===== src/Kerberos/Kdc.antt =====
-- authlab/kerberos/kdc.py: the Key Distribution Center.
pub mod Issued
use auth_lab.Prelude.{
  ℕ, ◌+◌, String, Bool, not, Option, none, some, List, [], ◌∷◌, str_eq, ltb, leb, if◌then◌else◌,
}
use Prim.Native.String.{◌++◌}
use auth_lab.Prelude.Int.{ℤ, abs_diff}
use auth_lab.Prelude.Result.{Result, ok, err, ◌>>=◌, ◌>>◌, refuse_if, or_raise}
use auth_lab.Dict.{Dict, get, set}
use auth_lab.Crypto.Bytes.{Bytes}
use auth_lab.Kerberos.{
  EncryptedData, Ticket, EncTicketPart, Plain, ticket_part, authenticator, key_part, echo, stamp,
  unreadable, Env, Error, policy, ticket_expired, bad_match, skew, unknown_client, unknown_service,
  preauth_required, preauth_failed, crash, tgt_service, encrypt, decrypt, open_ticket,
  open_authenticator,
}

-- `Principal`
pub record Principal : Type 0 where
  pub name : String
  pub realm : String
  pub key : Bytes
  pub kvno : ℕ
  pub require_preauth : Bool
  pub is_service : Bool
  pub groups : List String

-- `Principal.full_name`
abbrev pub full_name : Principal → String
full_name p = p.name ++ ("@" ++ p.realm)

-- What the log says.
pub data Entry : Type 0 where
  preauth_disabled : String → Entry
  tgt_issued : String → Entry
  ticket_issued : String → String → Entry

-- `KDC`, with the time of its clock and the number of its next draw
pub record Kdc : Type 0 where
  pub realm : String
  pub now : ℕ
  pub principals : Dict Principal
  pub ticket_lifetime : ℕ
  pub clock_skew : ℕ
  pub krbtgt_key : Bytes
  pub events : List Entry
  pub draws : ℕ

-- `ASRep` and `TGSRep`
pub record Reply : Type 0 where
  pub client : String
  pub ticket : Ticket
  pub enc_part : EncryptedData

-- `add_principal`
unfoldable pub add_principal :
    Env → String → Option String → Bool → Bool → List String → Kdc → Principal × Kdc
unfolding set
add_principal env name password is_service require_preauth groups k =
    let key : Bytes = elim password [
      | some p ↦ env.string_to_key p (k.realm ++ name)
      | none ↦ env.random_key k.draws
    ] in
    let principal : Principal = record {
      name = name;
      realm = k.realm;
      key = key;
      kvno = 1;
      require_preauth = require_preauth;
      is_service = is_service;
      groups = groups;
    } in
    (
      principal,
      record k {
        principals = set k.principals name principal;
        draws = elim password [ some p ↦ k.draws | none ↦ k.draws + 1 ];
      },
    )

-- `int(... .decode("ascii"))`
abbrev pub as_stamp : Plain → Result Error ℤ
as_stamp (stamp t) = ok t
as_stamp (ticket_part t) = err crash
as_stamp (authenticator a) = err crash
as_stamp (key_part k e) = err crash
as_stamp (echo t n) = err crash
as_stamp unreadable = err crash

-- `except KerberosError: raise KDC_ERR_PREAUTH_FAILED`, around `decrypt`
abbrev pub or_preauth_failed : Result Error Plain → Result Error Plain
or_preauth_failed (ok p) = ok p
or_preauth_failed (err e) = err preauth_failed

-- Proof of the password, where it is required.
unfoldable pub check_preauth :
    Env → Principal → Option EncryptedData → Kdc → Result Error (Unit {0})
check_preauth env client pa_enc_timestamp k =
    if client.require_preauth
    then (do
      sealed ← or_raise pa_enc_timestamp preauth_required
      plain ← or_preauth_failed (decrypt env client.key sealed)
      time ← as_stamp plain
      refuse_if (ltb k.clock_skew (abs_diff k.now time)) skew)
    else ok tt

-- The ticket-granting ticket of a client.
abbrev pub tgt_part : Principal → Bytes → Kdc → EncTicketPart
tgt_part client session_key k = record {
  client = full_name client;
  realm = k.realm;
  session_key = session_key;
  auth_time = k.now;
  start_time = k.now;
  end_time = k.now + k.ticket_lifetime;
  renew_till = 0;
  flags = if client.require_preauth then "initial" ∷ "pre-authent" ∷ [] else "initial" ∷ [];
  groups = client.groups;
}

-- `as_req` behind its checks: three draws, for the session key and the two ciphertexts.
unfoldable pub issue_tgt : Env → Principal → Kdc → Reply × Kdc
unfolding encrypt
issue_tgt env client k =
    let session_key = env.random_key k.draws in
    let part = tgt_part client session_key k in
    (
      record {
        client = full_name client;
        ticket = record {
          realm = k.realm;
          service = tgt_service;
          enc_part = encrypt env k.krbtgt_key (ticket_part part) 1 (k.draws + 1);
        };
        enc_part = encrypt env client.key (key_part session_key part.end_time) 1 (k.draws + 2);
      },
      record k { events = tgt_issued (full_name client) ∷ k.events; draws = k.draws + 3 },
    )

-- The warning about a client without pre-authentication.
abbrev pub warn : String → Principal → Kdc → Kdc
warn name client k =
    if client.require_preauth then k else record k { events = preauth_disabled name ∷ k.events }

-- `as_req`
unfoldable pub as_req : Env → String → Option EncryptedData → Kdc → Result Error Reply × Kdc
unfolding get check_preauth issue_tgt
as_req env client_name pa_enc_timestamp k = elim (get k.principals client_name) [
  | none ↦ (err unknown_client, k)
  | some client ↦ elim (check_preauth env client pa_enc_timestamp k) [
    | err e ↦ (err e, k)
    | ok _ ↦ let (reply, k') = issue_tgt env client (warn client_name client k) in (ok reply, k')
  ]
]

-- `tgs_req` before it issues: the ticket-granting ticket, its authenticator and the service.
unfoldable pub check_tgs :
    Env → Ticket → EncryptedData → String → Kdc → Result Error (EncTicketPart × Principal)
unfolding get
check_tgs env tgt sealed service_name k = do
  refuse_if (not (str_eq tgt.service tgt_service)) policy
  enc_ticket ← open_ticket env k.krbtgt_key tgt.enc_part
  refuse_if (ltb enc_ticket.end_time k.now) ticket_expired
  auth ← open_authenticator env enc_ticket.session_key sealed
  refuse_if (not (str_eq auth.client enc_ticket.client)) bad_match
  refuse_if (ltb k.clock_skew (abs_diff k.now auth.timestamp)) skew
  service ← or_raise (get k.principals service_name) unknown_service
  ok (enc_ticket, service)

-- `min(a, b)`
abbrev pub min : ℕ → ℕ → ℕ
min a b = if leb a b then a else b

-- The service ticket: the client, its groups and its flags are those of the other ticket.
abbrev pub service_part : EncTicketPart → Bytes → Kdc → EncTicketPart
service_part enc_ticket session_key k = record {
  client = enc_ticket.client;
  realm = k.realm;
  session_key = session_key;
  auth_time = enc_ticket.auth_time;
  start_time = k.now;
  end_time = min (k.now + k.ticket_lifetime) enc_ticket.end_time;
  renew_till = 0;
  flags = enc_ticket.flags;
  groups = enc_ticket.groups;
}

unfoldable pub issue_ticket : Env → EncTicketPart → String → Principal → Kdc → Reply × Kdc
unfolding encrypt
issue_ticket env enc_ticket service_name service k =
    let session_key = env.random_key k.draws in
    let part = service_part enc_ticket session_key k in
    (
      record {
        client = enc_ticket.client;
        ticket = record {
          realm = k.realm;
          service = service_name;
          enc_part = encrypt env service.key (ticket_part part) service.kvno (k.draws + 1);
        };
        enc_part =
            encrypt env enc_ticket.session_key (key_part session_key part.end_time) 1 (k.draws + 2);
      },
      record k {
        events = ticket_issued enc_ticket.client service_name ∷ k.events;
        draws = k.draws + 3;
      },
    )

-- `tgs_req`
unfoldable pub tgs_req : Env → Ticket → EncryptedData → String → Kdc → Result Error Reply × Kdc
unfolding check_tgs issue_ticket
tgs_req env tgt sealed service_name k = elim (check_tgs env tgt sealed service_name k) [
  | err e ↦ (err e, k)
  | ok (enc_ticket, service) ↦
      let (reply, k') = issue_ticket env enc_ticket service_name service k in (ok reply, k')
]

-- `forge_golden_ticket`
unfoldable pub forge_golden_ticket : Env → String → List String → ℕ → Kdc → Ticket × Kdc
unfolding encrypt
forge_golden_ticket env client_name groups lifetime k =
    let part : EncTicketPart = record {
      client = client_name ++ ("@" ++ k.realm);
      realm = k.realm;
      session_key = env.random_key k.draws;
      auth_time = k.now;
      start_time = k.now;
      end_time = k.now + lifetime;
      renew_till = 0;
      flags = "initial" ∷ "forged" ∷ [];
      groups = groups;
    } in
    (
      record {
        realm = k.realm;
        service = tgt_service;
        enc_part = encrypt env k.krbtgt_key (ticket_part part) 1 (k.draws + 1);
      },
      record k { draws = k.draws + 2 },
    )

-- `crack_service_ticket`: the first candidate whose key opens the ticket.
unfoldable pub crack_service_ticket : Env → Ticket → List String → String → Kdc → Option String
crack_service_ticket env ticket [] service_name k = none
crack_service_ticket env ticket (p ∷ ps) service_name k =
    let rest = crack_service_ticket env ticket ps service_name k in
    elim (decrypt env (env.string_to_key p (k.realm ++ service_name)) ticket.enc_part) [
      | ok _ ↦ some p
      | err _ ↦ rest
    ]

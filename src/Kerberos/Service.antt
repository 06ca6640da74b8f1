-- ===== src/Kerberos/Service.antt =====
-- authlab/kerberos/service.py: `ap_req` and the replay cache.
pub mod Cache
pub mod Opened
pub mod Replay
use auth_lab.Prelude.{
  ℕ, ◌+◌, ◌≤◌, ◌≡◌, String, Bool, true, false, not, ◌&&◌, ◌||◌, Option, none, some, List, [], ◌∷◌,
  any, filter, str_eq, ltb, ◌==◌, if◌then◌else◌,
}
use auth_lab.Prelude.Int.{ℤ, pos_part, neg_part, abs_diff}
use auth_lab.Prelude.Result.{Result, ok, err, ◌>>=◌, ◌>>◌, refuse_if}
use auth_lab.Crypto.Bytes.{Bytes}
use auth_lab.Kerberos.{
  EncryptedData, Ticket, EncTicketPart, Authenticator, Plain, echo, Env, Error, no_key,
  ticket_expired, ticket_not_yet_valid, bad_match, skew, repeat, encrypt, open_ticket,
  open_authenticator,
}

-- An entry of the replay cache: its key and its expiry.
pub record Seen : Type 0 where
  pub client : String
  pub timestamp : ℤ
  pub sequence : ℤ
  pub expiry : ℕ

-- `KerberizedService`, with the time of its clock and the number of its next draw
pub record KerberizedService : Type 0 where
  pub name : String
  pub realm : String
  pub key : Bytes
  pub now : ℕ
  pub clock_skew : ℕ
  pub replay_cache : List Seen
  pub draws : ℕ

-- `AuthenticatedClient`
pub record AuthenticatedClient : Type 0 where
  pub name : String
  pub realm : String
  pub groups : List String
  pub session_key : Bytes
  pub auth_time : ℕ
  pub ticket_end : ℕ
  pub flags : List String

abbrev pub eq_ℤ : ℤ → ℤ → Bool
eq_ℤ a b = pos_part a == pos_part b && neg_part a == neg_part b

-- `key in self.replay_cache`
abbrev pub is_seen : Authenticator → Seen → Bool
is_seen auth s =
    str_eq auth.client s.client
    && eq_ℤ auth.timestamp s.timestamp
    && eq_ℤ auth.sequence_number s.sequence

-- `_purge_replay_cache`
unfoldable pub purge_cache : ℕ → List Seen → List Seen
purge_cache now cache = filter (λ s. not (ltb s.expiry now)) cache

-- The checks that come before the replay cache: of the ticket, and of the authenticator.
unfoldable pub check_ticket : Env → Ticket → KerberizedService → Result Error EncTicketPart
check_ticket env ticket s = do
  refuse_if (not (str_eq ticket.service s.name)) no_key
  enc_ticket ← open_ticket env s.key ticket.enc_part
  refuse_if (ltb enc_ticket.end_time s.now) ticket_expired
  refuse_if (ltb (s.now + s.clock_skew) enc_ticket.start_time) ticket_not_yet_valid
  ok enc_ticket

unfoldable pub check_authenticator :
    Env → EncTicketPart → EncryptedData → KerberizedService → Result Error Authenticator
check_authenticator env enc_ticket sealed s = do
  auth ← open_authenticator env enc_ticket.session_key sealed
  refuse_if (not (str_eq auth.client enc_ticket.client)) bad_match
  refuse_if (ltb s.clock_skew (abs_diff s.now auth.timestamp)) skew
  ok auth

unfoldable pub open_request :
    Env → Ticket → EncryptedData → KerberizedService → Result Error (EncTicketPart × Authenticator)
open_request env ticket sealed s = do
  enc_ticket ← check_ticket env ticket s
  auth ← check_authenticator env enc_ticket sealed s
  ok (enc_ticket, auth)

abbrev pub authenticated : EncTicketPart → AuthenticatedClient
authenticated t = record {
  name = t.client;
  realm = t.realm;
  groups = t.groups;
  session_key = t.session_key;
  auth_time = t.auth_time;
  ticket_end = t.end_time;
  flags = t.flags;
}

-- The answer with the client's timestamp, where it is asked for; encrypting it takes a draw.
unfoldable pub ap_rep : Env → Bool → EncTicketPart → Authenticator → ℕ → Option EncryptedData
unfolding encrypt
ap_rep env mutually ticket auth draw =
    if mutually
    then some (encrypt env ticket.session_key (echo auth.timestamp auth.sequence_number) 1 draw)
    else none

-- What is remembered of an authenticator.
abbrev pub remembered : Authenticator → ℕ → Seen
remembered auth expiry = record {
  client = auth.client;
  timestamp = auth.timestamp;
  sequence = auth.sequence_number;
  expiry = expiry;
}

-- `ap_req` from the replay cache on.
unfoldable pub admit :
    Env
    → Bool
    → EncTicketPart
    → Authenticator
    → KerberizedService
    → Result Error (AuthenticatedClient × Option EncryptedData) × KerberizedService
unfolding purge_cache ap_rep
admit env mutually ticket auth s =
    let cache = purge_cache s.now s.replay_cache in
    if any (is_seen auth) cache then (err repeat, record s { replay_cache = cache }) else (
      ok (authenticated ticket, ap_rep env mutually ticket auth s.draws),
      record s {
        replay_cache = remembered auth (s.now + s.clock_skew) ∷ cache;
        draws = if mutually then s.draws + 1 else s.draws;
      },
    )

unfoldable pub answer :
    Env
    → Bool
    → Result Error (EncTicketPart × Authenticator)
    → KerberizedService
    → Result Error (AuthenticatedClient × Option EncryptedData) × KerberizedService
unfolding admit
answer env mutually (err e) s = (err e, s)
answer env mutually (ok (enc_ticket, auth)) s = admit env mutually enc_ticket auth s

-- `ap_req`
unfoldable pub ap_req :
    Env
    → Ticket
    → EncryptedData
    → Bool
    → KerberizedService
    → Result Error (AuthenticatedClient × Option EncryptedData) × KerberizedService
unfolding answer
ap_req env ticket sealed mutually s = answer env mutually (open_request env ticket sealed s) s

-- The clock goes on.
abbrev pub wait : ℕ → KerberizedService → KerberizedService
wait seconds s = record s { now = s.now + seconds }

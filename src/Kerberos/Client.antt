-- ===== src/Kerberos/Client.antt =====
-- authlab/kerberos/client.py: a client that talks to a KDC. Their random source is one and the same.
pub mod Replies
pub mod Login
use auth_lab.Prelude.{
  ℕ, ◌+◌, ◌≤◌, ◌≡◌, String, Bool, true, false, Option, none, some, List, [], ltb, if◌then◌else◌,
}
use Prim.Native.String.{◌++◌}
use auth_lab.Prelude.Int.{ℤ, pos}
use auth_lab.Prelude.Result.{Result, ok, err, ◌>>=◌}
use auth_lab.Dict.{Dict, get, set}
use auth_lab.Crypto.Bytes.{Bytes}
use auth_lab.Kerberos.{
  EncryptedData, Ticket, EncTicketPart, Authenticator, Plain, ticket_part, authenticator, key_part,
  echo, stamp, unreadable, Env, Error, no_tgt, tgt_expired, crash, encrypt, decrypt,
}
use auth_lab.Kerberos.Kdc.{Kdc, Reply, as_req, tgs_req}

-- `CachedTicket`
pub record CachedTicket : Type 0 where
  pub ticket : Ticket
  pub session_key : Bytes
  pub end_time : ℕ

-- `KerberosClient`, with the time of its clock and the KDC that it talks to
pub record KerberosClient : Type 0 where
  pub principal : String
  pub realm : String
  pub kdc : Kdc
  pub now : ℕ
  pub long_term_key : Option Bytes
  pub tgt : Option CachedTicket
  pub service_tickets : Dict CachedTicket

-- What a draw of the random source leaves behind.
abbrev pub drawn : KerberosClient → KerberosClient
drawn c = record c { kdc = record c.kdc { draws = c.kdc.draws + 1 } }

-- `payload["session_key"]` and `payload["end_time"]`
abbrev pub as_key_part : Plain → Result Error (Bytes × ℕ)
as_key_part (key_part k e) = ok (k, e)
as_key_part (ticket_part t) = err crash
as_key_part (authenticator a) = err crash
as_key_part (echo t n) = err crash
as_key_part (stamp t) = err crash
as_key_part unreadable = err crash

-- The ticket of a reply, with what the key opens.
unfoldable pub read_reply : Env → Bytes → Reply → Result Error CachedTicket
read_reply env key reply = do
  plain ← decrypt env key reply.enc_part
  (session_key, end_time) ← as_key_part plain
  ok (record { ticket = reply.ticket; session_key = session_key; end_time = end_time })

-- The ticket-granting ticket that was read goes into the cache.
unfoldable pub keep_tgt :
    Result Error CachedTicket → KerberosClient → Result Error CachedTicket × KerberosClient
keep_tgt (err e) c = (err e, c)
keep_tgt (ok cached) c = (ok cached, record c { tgt = some cached })

-- `kinit` from the long-term key on
unfoldable pub kinit_with :
    Env → Bytes → KerberosClient → Result Error CachedTicket × KerberosClient
unfolding keep_tgt
kinit_with env key c =
    let c1 : KerberosClient = record (drawn c) { long_term_key = some key } in
    let pa = encrypt env key (stamp (pos c.now)) 1 c.kdc.draws in
    let (answer, k) = as_req env c.principal (some pa) c1.kdc in
    keep_tgt (answer >>= read_reply env key) (record c1 { kdc = k })

-- `kinit`
unfoldable pub kinit : Env → String → KerberosClient → Result Error CachedTicket × KerberosClient
unfolding kinit_with
kinit env password c = kinit_with env (env.string_to_key password (c.realm ++ c.principal)) c

-- `_authenticator`: two draws, for the sequence number and the ciphertext.
unfoldable pub make_authenticator : Env → Bytes → KerberosClient → EncryptedData
make_authenticator env session_key c =
    let auth : Authenticator = record {
      client = c.principal ++ ("@" ++ c.realm);
      realm = c.realm;
      timestamp = pos c.now;
      microseconds = pos 0;
      checksum = [];
      subkey = none;
      sequence_number = pos (env.random_number c.kdc.draws);
    } in
    encrypt env session_key (authenticator auth) 1 (c.kdc.draws + 1)

unfoldable pub keep_ticket :
    String → Result Error CachedTicket → KerberosClient → Result Error CachedTicket × KerberosClient
unfolding set
keep_ticket service_name (err e) c = (err e, c)
keep_ticket service_name (ok cached) c =
    (ok cached, record c { service_tickets = set c.service_tickets service_name cached })

-- `get_service_ticket` without a ticket in the cache
unfoldable pub request_ticket :
    Env → String → CachedTicket → KerberosClient → Result Error CachedTicket × KerberosClient
unfolding keep_ticket
request_ticket env service_name tgt c =
    let sealed = make_authenticator env tgt.session_key c in
    let c1 = drawn (drawn c) in
    let (answer, k) = tgs_req env tgt.ticket sealed service_name c1.kdc in
    keep_ticket service_name (answer >>= read_reply env tgt.session_key) (record c1 { kdc = k })

unfoldable pub fresh_ticket :
    Env → String → KerberosClient → Result Error CachedTicket × KerberosClient
fresh_ticket env service_name c = elim c.tgt [
  | none ↦ (err no_tgt, c)
  | some tgt ↦
      if ltb tgt.end_time c.now then (err tgt_expired, c) else request_ticket env service_name tgt c
]

-- A ticket in the cache is used until it ends.
unfoldable pub cached_or_fresh :
    Env → String → Option CachedTicket → KerberosClient → Result Error CachedTicket × KerberosClient
cached_or_fresh env service_name none c = fresh_ticket env service_name c
cached_or_fresh env service_name (some cached) c =
    if ltb c.now cached.end_time then (ok cached, c) else fresh_ticket env service_name c

-- `get_service_ticket`
unfoldable pub get_service_ticket :
    Env → String → KerberosClient → Result Error CachedTicket × KerberosClient
get_service_ticket env service_name c =
    cached_or_fresh env service_name (get c.service_tickets service_name) c

-- `ap_req` with the ticket that it has got
unfoldable pub send :
    Env
    → Result Error CachedTicket
    → KerberosClient
    → Result Error (Ticket × EncryptedData) × KerberosClient
send env (err e) c = (err e, c)
send env (ok cached) c =
    (ok (cached.ticket, make_authenticator env cached.session_key c), drawn (drawn c))

-- `ap_req`
unfoldable pub build_ap_req :
    Env → String → KerberosClient → Result Error (Ticket × EncryptedData) × KerberosClient
build_ap_req env service_name c =
    let (answer, c') = get_service_ticket env service_name c in send env answer c'

-- The answer of the service has a timestamp.
abbrev pub is_echo : Result Error Plain → Bool
is_echo (ok (echo t n)) = true
is_echo (ok (ticket_part t)) = false
is_echo (ok (authenticator a)) = false
is_echo (ok (key_part k e)) = false
is_echo (ok (stamp t)) = false
is_echo (ok unreadable) = false
is_echo (err e) = false

-- An answer that opens, and has the time in it. What it opens to is one of the messages or is
-- unreadable; `in` and pickle raise TypeError or UnpicklingError on the latter, and the model says no.
unfoldable pub proves : Env → EncryptedData → Option CachedTicket → Bool
proves env answer none = false
proves env answer (some cached) = is_echo (decrypt env cached.session_key answer)

-- `verify_ap_rep`
unfoldable pub verify_ap_rep : Env → String → EncryptedData → KerberosClient → Bool
unfolding proves
verify_ap_rep env service_name answer c = proves env answer (get c.service_tickets service_name)

-- `import_ticket` and `import_tgt`
unfoldable pub import_ticket : String → Ticket → Bytes → ℕ → KerberosClient → KerberosClient
import_ticket service_name ticket session_key end_time c = record c {
  service_tickets =
      set c.service_tickets service_name
        (record { ticket = ticket; session_key = session_key; end_time = end_time });
}

unfoldable pub import_tgt : Ticket → Bytes → ℕ → KerberosClient → KerberosClient
import_tgt ticket session_key end_time c = record c {
  tgt = some (record { ticket = ticket; session_key = session_key; end_time = end_time });
}

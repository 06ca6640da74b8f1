-- ===== src/Kerberos.antt =====
-- authlab/kerberos/messages.py and what its users take from outside: ciphers, keys, randomness.
pub mod Service
pub mod Kdc
pub mod Client
use auth_lab.Prelude.{ℕ, ◌≡◌, String, Option, none, some, List, str_eq, not}
use auth_lab.Prelude.Int.{ℤ}
use auth_lab.Prelude.Result.{Result, ok, err, ◌>>=◌, ◌>>◌, refuse_if, or_raise}
use auth_lab.Crypto.Bytes.{Bytes}

-- `EncryptedData`
pub record EncryptedData : Type 0 where
  pub etype : String
  pub kvno : ℕ
  pub cipher : Bytes

-- `Ticket`
pub record Ticket : Type 0 where
  pub realm : String
  pub service : String
  pub enc_part : EncryptedData

-- `EncTicketPart`, with the groups of its authorization data
pub record EncTicketPart : Type 0 where
  pub client : String
  pub realm : String
  pub session_key : Bytes
  pub auth_time : ℕ
  pub start_time : ℕ
  pub end_time : ℕ
  pub renew_till : ℕ
  pub flags : List String
  pub groups : List String

-- `Authenticator`
pub record Authenticator : Type 0 where
  pub client : String
  pub realm : String
  pub timestamp : ℤ
  pub microseconds : ℤ
  pub checksum : Bytes
  pub subkey : Option Bytes
  pub sequence_number : ℤ

-- What a plaintext reads as: the serialized objects, and the digits of a pre-authentication.
pub data Plain : Type 0 where
  ticket_part : EncTicketPart → Plain
  authenticator : Authenticator → Plain
  key_part : Bytes → ℕ → Plain
  echo : ℤ → ℤ → Plain
  stamp : ℤ → Plain
  unreadable : Plain

-- `encrypt_then_mac` and `verify_then_decrypt` under the keys that `_split_key` derives (the draw
-- gives the initialization vector; `none` is the `ValueError`), `string_to_key`, `random_bytes(32)` and the
-- number that `random_bytes(4)` reads as.
pub record Env : Type 0 where
  pub seal : Bytes → Plain → ℕ → Bytes
  pub unseal : Bytes → Bytes → Option Plain
  pub string_to_key : String → String → Bytes
  pub random_key : ℕ → Bytes
  pub random_number : ℕ → ℕ

-- What a key has sealed, it opens.
abbrev pub OpensSealed : Env → Type 0
OpensSealed env =
    (key : Bytes) (plain : Plain) (draw : ℕ) → env.unseal key (env.seal key plain draw) ≡ some plain

-- The codes of `KerberosError`; `crash` is an exception of another class, for a plaintext of another
-- kind.
pub data Error : Type 0 where
  no_key : Error
  bad_etype : Error
  decryption_failed : Error
  ticket_expired : Error
  ticket_not_yet_valid : Error
  bad_match : Error
  skew : Error
  repeat : Error
  unknown_client : Error
  unknown_service : Error
  preauth_required : Error
  preauth_failed : Error
  policy : Error
  no_tgt : Error
  tgt_expired : Error
  crash : Error

abbrev pub etype_lab : String
etype_lab = "aes256-lab"

abbrev pub tgt_service : String
tgt_service = "krbtgt"

-- `encrypt`
unfoldable pub encrypt : Env → Bytes → Plain → ℕ → ℕ → EncryptedData
encrypt env key plain kvno draw = record {
  etype = etype_lab;
  kvno = kvno;
  cipher = env.seal key plain draw;
}

-- `decrypt`
unfoldable pub decrypt : Env → Bytes → EncryptedData → Result Error Plain
decrypt env key data_in = do
  refuse_if (not (str_eq data_in.etype etype_lab)) bad_etype
  or_raise (env.unseal key data_in.cipher) decryption_failed

-- A plaintext read as a ticket, and as an authenticator.
abbrev pub as_ticket : Plain → Result Error EncTicketPart
as_ticket (ticket_part t) = ok t
as_ticket (authenticator a) = err crash
as_ticket (key_part k e) = err crash
as_ticket (echo t n) = err crash
as_ticket (stamp t) = err crash
as_ticket unreadable = err crash

abbrev pub as_authenticator : Plain → Result Error Authenticator
as_authenticator (ticket_part t) = err crash
as_authenticator (authenticator a) = ok a
as_authenticator (key_part k e) = err crash
as_authenticator (echo t n) = err crash
as_authenticator (stamp t) = err crash
as_authenticator unreadable = err crash

-- `_deserialize(decrypt(key, ...))`
unfoldable pub open_ticket : Env → Bytes → EncryptedData → Result Error EncTicketPart
unfolding decrypt
open_ticket env key sealed = do plain ← decrypt env key sealed; as_ticket plain

unfoldable pub open_authenticator : Env → Bytes → EncryptedData → Result Error Authenticator
unfolding decrypt
open_authenticator env key sealed = do plain ← decrypt env key sealed; as_authenticator plain

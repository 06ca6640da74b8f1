-- ===== src/Lib.antt =====
-- auth-lab: authentication and authorization protocols in plain Python, as models and theorems.
--
-- The program. `authlab/oauth` is an OAuth 2.1 authorization server: `authorization_server.py` holds
-- the endpoints over the records of `models.py`; it calls `pkce.py` for the check of a code verifier,
-- `dpop.py` for proofs of possession and `rar.py` for authorization details, and raises the exceptions
-- of `errors.py`. `authlab/authz` holds access control engines, `authlab/mfa` one-time passwords and
-- recovery codes, `authlab/crypto/cbor.py` the codec of WebAuthn's keys; these stand on their own.
-- `authlab/kerberos` is a realm: a client (`client.py`) calls the KDC (`kdc.py`) for tickets and shows
-- them to a service (`service.py`); `messages.py` has the records that they exchange.
-- `authlab/directory/ldap.py` is a directory that finds users by filters and checks their passwords.
--
-- The modules.
-- - Prelude, Dict, Json, Url: what the source uses of Python. Texts and numbers are native, a `dict` is
--   an association list in insertion order, a JSON value is a data type, `urlsplit` is written out.
-- - Oauth/Env: what the server takes from outside the modelled files, as a record that every definition
--   takes as a parameter: the random source (its answer at each draw), SHA-256, JSON text, and the
--   signature layers of authlab/jose and authlab/crypto. `b64u_encode` and `random_token` of
--   authlab/util are defined on top of it.
-- - Oauth/Errors: the exceptions of authlab/oauth/errors.py and the result of a call that may raise.
--   Oauth/Exec: calls that also write; what was written before a raise stays written.
-- - Oauth/Models: authlab/oauth/models.py. A Python object that is reached by a key of the store and
--   changed in place is changed under that key; no such object stands under two keys.
-- - Oauth/Pkce, Oauth/Dpop, Oauth/Rar: the files of the same names. Pkce/Shape is the form of a code
--   verifier, Dpop/Signed and Dpop/Fresh are what a proof is that passes its checks, Rar/Members is
--   what the members of a detail are.
-- - Oauth/Server: `AuthorizationServer`. Authorize (register_client, register_user,
--   validate_authorization_request, issue_authorization_code), Authenticate (authenticate_client,
--   _verify_client_assertion), Mint (_issue_token_set, issue_id_token, and JWT.issue of
--   authlab/jose/jwt.py), Grants (the four grants, in ByCode, ByRefresh and ByOthers), Token (token),
--   Device (device_authorization, approve_device, deny_device), Inspect (introspect, revoke). Trace is
--   the server at work: one step per operation, in any order, while the clock goes on.
-- - Mfa/Hotp, Mfa/Totp, Mfa/Recovery: authlab/mfa, with HMAC and SHA-256 as parameters of the
--   definitions.
-- - Authz/Abac, Authz/Rbac, Authz/Rebac: the engines of authlab/authz. Rebac/Member is the meaning of the
--   rules and the tuples, as derivations with a number of hops; Rebac/Expand has `expand`, `list_users`
--   and `list_objects`.
-- - Crypto/Cbor and Crypto/Cbor/Decode: authlab/crypto/cbor.py, over the bytes and the UTF-8 of
--   Crypto/Bytes. An offset into the data is the list of the bytes from it on.
-- - Kerberos: messages.py, `encrypt` and `decrypt`; Kerberos/Service, Kerberos/Kdc and Kerberos/Client
--   are the files of those names. Sealing a plaintext with a key, key derivation from passwords and
--   random keys are parameters (`Kerberos.Env`); a plaintext is what it deserializes to, so that
--   pickle is left out. The client has its KDC in its state, and draws from the same random source.
-- - Directory/Ldap and Directory/Ldap/Filter: authlab/directory/ldap.py. The predicates that the parser
--   returns are a data type with its meaning (Filter/Holds); a position in a filter is the text from it
--   on; the password hasher is a parameter.
-- - Tests: small servers, engines and realms, and the theorems at them.
--
-- The clock is the frozen clock of authlab/util/clock.py: a field that a step of its own moves. Random
-- draws are numbered by a counter in the state, so that "is not drawn again" is a statement about the
-- numbers from the counter on. Python numbers that the source compares with the clock are natural
-- numbers, those that come out of JSON are integers.
--
-- Bounds and fuel. `effective_roles`, and the search for a cycle beside it, have as their fuel the
-- number of assigned roles and all entries of `inherits`, since every pass takes one name off the
-- queue and a role adds its entries once. The CBOR decoder has twice the number of bytes and one as
-- its fuel, since every head takes a byte; the parser of LDAP filters has two for each character and
-- one, since every bracket takes a character. Python's limit on recursion is not modelled. `check` and
-- `expand` count down from `max_depth` + 1, the source's own bound.
--
-- Not modelled: texts for people in errors and audit entries, HTML and HTTP (authlab/server.py), the
-- client sides of OAuth, the metadata documents, the comparison of the policy engines, and the other
-- protocols (SAML, WebAuthn, SCIM, mTLS) with the cryptographic primitives.
pub mod Prelude
pub mod Dict
pub mod Json
pub mod Url
pub mod Crypto
pub mod Authz
pub mod Mfa
pub mod Oauth
pub mod Directory
pub mod Kerberos
mod Tests

-- ===== src/Tests.antt =====
-- The theorems at concrete inputs.
mod Toy
mod Texts
mod Codecs
mod Sharing
mod Sealing
mod Tickets
mod Logins
mod Oauth
mod Endpoints
mod Access
mod Sender
mod Factors

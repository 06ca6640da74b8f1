-- ===== src/Mfa.antt =====
-- authlab/mfa: one-time passwords and recovery codes.
pub mod Hotp
pub mod Totp
pub mod Recovery

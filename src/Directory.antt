-- ===== src/Directory.antt =====
-- authlab/directory: a directory that checks passwords.
pub mod Ldap

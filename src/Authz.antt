-- ===== src/Authz.antt =====
-- authlab/authz: who may do what.
pub mod Abac
pub mod Rbac
pub mod Rebac

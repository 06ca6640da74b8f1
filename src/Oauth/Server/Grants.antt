-- ===== src/Oauth/Server/Grants.antt =====
-- The four grants of the token endpoint. Each is split where the code first writes: the checks in
-- front of the write are a function into `Result`.
pub mod Parts
pub mod ByCode
pub mod ByRefresh
pub mod ByOthers
pub mod Code
pub mod Replay
pub mod Refresh
pub mod Family
pub mod Frames
pub mod Cache
pub mod Devices
pub mod Sender
pub mod Refusals
pub mod DeadFamilies
pub mod DeadOthers
unfoldable pub use Parts.*
unfoldable pub use ByCode.*
unfoldable pub use ByRefresh.*
unfoldable pub use ByOthers.*

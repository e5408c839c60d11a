-- ===== src/Client.antt =====
-- ayane-cli/src/cmd: the client's renewal of a certificate.
pub mod Request
pub mod Schedule
pub mod Config
pub mod Renewal
pub mod Waiting
pub mod Backoff
pub mod Loop

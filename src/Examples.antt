-- ===== src/Examples.antt =====
-- Concrete inputs at which the theorems apply.
pub mod Data
pub mod Codec
pub mod Messages
pub mod Texts
pub mod Sessions
pub mod Requests
pub mod Adapters
pub mod Transports
pub mod Web
pub mod Upgrades
pub mod Browsers

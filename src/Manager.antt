-- ===== src/Manager.antt =====
-- apps/lsp/src/session-manager.ts: the sessions of the LSP bridge, their quotas and life cycle.
pub mod State
pub mod Quota
pub mod Sessions
pub mod Closing
pub mod System

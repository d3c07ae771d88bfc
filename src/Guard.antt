-- ===== src/Guard.antt =====
-- apps/lsp/src/json-rpc-guard.ts: what the JSON-RPC guard lets through between browser and clangd.
pub mod Uris
pub mod Position
pub mod Change
pub mod State
pub mod Methods
pub mod Documents
pub mod Session

-- ===== src/Client.antt =====
-- The browser side of apps/web, less the transport: the project and its storage, the connection to the
-- language server, and the execution of a program.
pub mod Storage
pub mod Project
pub mod Connection
pub mod Phase
pub mod Execution

-- ===== src/Mcp.antt =====
-- src/any2heliosdb/mcp: the server through which agents call the engine, with its tokens and roles.
pub mod Access
pub mod Auth
pub mod Listing
pub mod Protocol
pub mod Server
pub mod Tools
pub mod Tokens

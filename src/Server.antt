-- ===== src/Server.antt =====
-- obligator.go: validation of a request and the multiplexer in front of all handlers.
pub mod Validate
pub mod Mux
pub mod LoggedIn
pub mod Methods

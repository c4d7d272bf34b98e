-- ===== src/Utils.antt =====
-- utils.go, with the PKCE functions of add_identity_oauth2.go: one module for each group of
-- functions, and their proofs below.
pub mod Hash
pub mod Random
pub mod CookieDomain
pub mod Cookies
pub mod LoginCookie
pub mod CommonPage

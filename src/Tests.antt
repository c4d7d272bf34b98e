-- ===== src/Tests.antt =====
-- Runs of the program on a small platform, and the theorems at concrete inputs.
pub mod Toy
pub mod Data
mod Store
mod Cookies
mod Proxy
mod Login
mod Wildcard
mod Mailing
mod Inbox
mod Sharing
mod Received
mod Site
mod Page
mod Provider
mod Assertion
mod Grant
mod Fetch
mod Boot
mod Replicated

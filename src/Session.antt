-- ===== src/Session.antt =====
-- The session of the dashboard in a browser: what is stored where, the requests, and the
-- operations of the provider, what can happen to it, and the guards of the pages.
pub mod World
pub mod Storage
pub mod Api
pub mod Retry
pub mod Requests
pub mod Provider
pub mod Frame
pub mod Access
pub mod Invariant
pub mod Operations
pub mod SignedIn
pub mod Passwords
pub mod Reach
pub mod Outcomes
pub mod SignIn
pub mod Sends
pub mod Guards
pub mod Queries
pub mod Spec
pub mod Drift
pub mod Refines
pub mod Overlap
mod Tests

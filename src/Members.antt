-- ===== src/Members.antt =====
-- convex/portalMembers.ts: portal accounts, their roles, and what an administrator may do to them.
-- What `internal.auth.store` does is the authentication library's, and a parameter.
pub mod Rows
pub mod Sessions
pub mod Accounts
pub mod Password
pub mod LastAdmin
pub mod Roles
pub mod Resets
pub mod Reach
pub mod Cutoff
pub mod Cleanup
pub mod Budget
pub mod Change
mod Tests

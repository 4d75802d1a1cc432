-- ===== src/Tests.antt =====
-- Data for the examples: instances of the parameters, and a small deployment.
pub mod Crates
pub mod Agents
pub mod Auth
pub mod Proxy
pub mod Registrations
pub mod Bodies
pub mod Bindings
pub mod Admin
pub mod Operator
pub mod Audit
pub mod Start
pub mod Accounts

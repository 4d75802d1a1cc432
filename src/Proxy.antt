-- ===== src/Proxy.antt =====
-- The proxy: src/proxy.rs with its two child modules, one module per step of `proxy_handler`.
pub mod Target
pub mod Bindings
pub mod Selection
pub mod Headers
pub mod Replies
pub mod Admission
pub mod Credentials
pub mod Handler

-- ===== src/Common.antt =====
-- pkg/common: what the four programs share at their start. Startup is what their main functions share.
pub mod Registration
pub mod Certs
pub mod Clients
pub mod Startup

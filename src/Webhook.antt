-- ===== src/Webhook.antt =====
-- What every webhook server has: the responses that its handler builds, `createPatch` and `Serve`.
-- The source repeats these functions in each of the four packages; here they stand once, and each
-- package's module names its own copy.
pub mod Response
pub mod Guards
pub mod Patch
pub mod Patched
pub mod Volumes
pub mod Serve

-- ===== src/Controller.antt =====
-- internal/controller: the reconcilers and their registration.
pub mod Pointer
pub mod User
pub mod Client
pub mod Tenant
pub mod Stream
pub mod Auth
pub mod DataPlane
pub mod Init
pub mod Setup

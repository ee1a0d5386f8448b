-- ===== src/Api.antt =====
-- api/v1: the custom resources, and what the program reads and writes of Kubernetes' own objects.
pub mod Meta
pub mod User
pub mod Client
pub mod Tenant
pub mod Stream
pub mod Auth
pub mod DataPlane
pub mod Init
pub mod Group
pub mod Access

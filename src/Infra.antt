-- ===== src/Infra.antt =====
-- internal/infra/infra.go: configuration, the database wrapper and the Kafka admin client.
pub mod Config
pub mod Database
pub mod Kafka

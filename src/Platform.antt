-- ===== src/Platform.antt =====
-- What the program runs on and does not implement: Redis, Kafka, PostgreSQL's network, JSON,
-- identifiers and time. Each is a parameter; its documented behaviour is a record of laws.
pub mod Redis
pub mod Env
pub mod Action
pub mod Uuid
pub mod Startup
pub mod Collectors

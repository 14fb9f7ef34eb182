-- ===== src/Shared.antt =====
-- shared/: the records and constants that the API gateway and the order worker have in common.
pub mod Events
pub mod Models
pub mod Config

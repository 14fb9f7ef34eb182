-- ===== src/Worker.antt =====
-- services/order-worker: the consumer of orders, that of the dead letter queue, the payment
-- simulator and the repository.
pub mod Repository
pub mod Payment
pub mod Consumer
pub mod Dlq
pub mod Reader
pub mod Main
pub mod Collectors

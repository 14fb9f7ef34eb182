-- ===== src/Gateway.antt =====
-- services/api-gateway: the gate in front of Redis, the HTTP handlers, and the WebSocket hub.
pub mod Gatekeeper
pub mod Http
pub mod Booking
pub mod Events
pub mod Hub
pub mod Health
pub mod Middleware
pub mod Subscriber
pub mod Main
pub mod Server

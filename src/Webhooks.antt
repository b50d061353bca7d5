-- ===== src/Webhooks.antt =====
-- The webhooks (src/webhooks): the endpoints, and the delivery of an event to an endpoint.
pub mod Delivery
pub mod Endpoints

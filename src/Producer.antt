-- ===== src/Producer.antt =====
-- pkg/producer: the event sources.
pub mod Prometheus
pub mod Registered
pub mod Client

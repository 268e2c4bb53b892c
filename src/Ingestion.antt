-- ===== src/Ingestion.antt =====
-- apps/ingestion: takes messages from MQTT, and publishes valid events to the raw topic.
pub mod Config
pub mod Services
pub mod RateLimiter
pub mod Producer
pub mod Handlers
pub mod Service
pub mod Mqtt
pub mod Lifespan

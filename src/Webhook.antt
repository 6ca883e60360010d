-- ===== src/Webhook.antt =====
-- The admission webhooks (internal/webhook).
pub mod Admission
pub mod Agent
pub mod Deployment

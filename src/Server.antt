-- ===== src/Server.antt =====
-- internal/server: the webhook receiver and the operational endpoints.
pub mod Startup
pub mod Webhook
pub mod Handlers

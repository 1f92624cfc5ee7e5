-- ===== src/Platform.antt =====
-- internal/platform: the configuration. Its server is in Server, its JSON in Orders.Json.
pub mod Variables
pub mod Config

-- ===== src/Gateway.antt =====
-- The gateway in front of the application (app/main.py, `_GatewayMiddleware`).
pub mod Access
mod Denials
mod Laws
mod Tests

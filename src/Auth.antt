-- ===== src/Auth.antt =====
-- internal/platform/auth: tokens (jwt.go) and the middleware that asks for them (middleware.go).
pub mod Jwt
pub mod Middleware

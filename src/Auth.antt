-- ===== src/Auth.antt =====
-- Authentication and rate limiting (include/tts/auth.hpp, src/server/auth.cpp).
pub mod Bearer
pub mod ClientIp
pub mod Compare
pub mod Failures
pub mod Requests
pub mod Tests

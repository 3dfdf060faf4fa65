-- ===== src/Totp.antt =====
-- Time-based one-time passwords: src/services/totp.js and src/services/totpPolicy.js.
pub mod Base32
pub mod Otp
pub mod Policy
pub mod Tests

-- ===== src/Redaction.antt =====
-- internal/redaction/redact.go: text is cleaned, redacted and cut before it leaves the program.
pub mod Utf8
pub mod Search
pub mod Clean
pub mod Engine
mod Tests

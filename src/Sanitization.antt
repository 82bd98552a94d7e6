-- ===== src/Sanitization.antt =====
-- src/engineering_memory/sanitization: the redaction of secrets.
pub mod Report
pub mod Placeholders
pub mod Scanner
pub mod PatternSanitizer
pub mod Manifest
pub mod Tests

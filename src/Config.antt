-- ===== src/Config.antt =====
-- internal/config/reflect.go: the fields of the configuration by their path.
pub mod Fields
pub mod Requests
pub mod Assigned

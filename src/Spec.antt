-- ===== src/Spec.antt =====
-- The package internal/spec: the document types, its defaults, validation and lookups.
pub mod Types
pub mod Lookup
pub mod Defaults
pub mod Validate
pub mod Parse
pub mod Duration
pub mod Filled
pub mod RoundTrip
pub mod Loaded

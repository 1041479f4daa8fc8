-- ===== src/Common.antt =====
-- pkg/common: operation types, the configuration with its check, messages, and Go's `int`.
pub mod OpType
pub mod Types
pub mod Int
pub mod Bytes
pub mod Encoding
pub mod Config
mod Examples

-- ===== src/Utils.antt =====
-- internal/utils: addresses (ip.go), names of generated objects (naming.go) and text helpers
-- (utils.go).
mod Tests
pub mod Ip
pub mod Naming
pub mod Objects
pub mod Strings

-- ===== src/Api.antt =====
-- api/v1 and the parts of the Kubernetes object types that the program reads or writes. Fields that
-- it neither reads nor writes are left out; a Go map is a `Dict`, and a nil map is the empty one,
-- but for `assigned_ips`, where the program tells the two apart.
pub mod Meta
pub mod Provider
pub mod Monitor
pub mod Switch
pub mod L2Network
pub mod Overlay
pub mod Ned
pub mod Quarantine
pub mod Resources

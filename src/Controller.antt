-- ===== src/Controller.antt =====
-- internal/controller: the reconcilers, the pod webhook and the helpers they share.
pub mod Fixtures
pub mod Admission
pub mod Defaults
pub mod ErrorEvent
pub mod NextIp
pub mod Ned
pub mod Network
pub mod Networks
pub mod Overlay
pub mod Owned
pub mod Pod
pub mod Quarantine
pub mod SwitchPod
pub mod Webhook

-- ===== src/Validation.antt =====
-- internal/model: the checks of a node's description before a kernel is given it (validate.go and the
-- files it calls). Texts are ASCII here; an error is a value without its text.
pub mod Transport
pub mod Tags
pub mod Outbounds
pub mod Routes
pub mod Spec
mod Tests

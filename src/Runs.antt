-- ===== src/Runs.antt =====
-- Concrete runs of the theorems.
mod Binary
mod Passes
mod Messages
mod Sessions
mod Files
mod Patches
mod Overlay
mod Server
mod Install
mod Faults

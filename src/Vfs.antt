-- ===== src/Vfs.antt =====
-- The virtual file system: vfs/vfs.go, vfs/memfs.go and vfs/file.go.
pub mod Path
pub mod Memory
pub mod File
pub mod Overlay
pub mod System
pub mod Paths
pub mod Descriptors
pub mod Content
pub mod Tree
pub mod Table
pub mod Visible
pub mod Unlinked
pub mod Moved
pub mod Shared

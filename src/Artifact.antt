-- ===== src/Artifact.antt =====
-- internal/artifact/manager.go: uploads and downloads of files through an object store.
pub mod Manager
pub mod Uploads
pub mod Completion
pub mod RoundTrip
pub mod Examples

-- ===== src/Oci.antt =====
-- src/fls/oci: images that come from a container registry.
pub mod Text
pub mod Maps
pub mod Partition
pub mod Extract
pub mod Auth
pub mod Blob
pub mod Write
pub mod Tar
pub mod Registry
pub mod Route
pub mod Reference
pub mod MediaType
pub mod Manifest
pub mod Tests

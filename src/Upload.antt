-- ===== src/Upload.antt =====
-- mountpoint-s3-fs/src/upload.rs and upload/: the uploads of objects. Modelled is the incremental upload,
-- with its hasher and its buffers.
pub mod Hasher
pub mod Buffer
pub mod Incremental

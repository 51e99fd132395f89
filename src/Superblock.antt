-- ===== src/Superblock.antt =====
-- mountpoint-s3-fs/src/superblock: the metadata of a mounted bucket.
pub mod HandleMap

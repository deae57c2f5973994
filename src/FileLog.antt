-- ===== src/FileLog.antt =====
-- xraft-storage/src/log.rs, `FileLogStore`: the write-ahead log in segment files.
pub mod Bytes
pub mod Codec
pub mod Entries
pub mod RoundTrip
pub mod Maps
pub mod Recovery
pub mod Sidecars
pub mod Store
pub mod Trim
pub mod Open
pub mod Consistent
pub mod Refinement

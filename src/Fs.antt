-- ===== src/Fs.antt =====
-- The FUSE file system (fs/*.cc): one module for each source file.
pub mod Config
pub mod FileType
pub mod Segment
pub mod Version
pub mod File
pub mod Release
pub mod Link
pub mod Directory
pub mod Attribute
pub mod Requests
pub mod Logger
pub mod Startup

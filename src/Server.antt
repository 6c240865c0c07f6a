-- ===== src/Server.antt =====
-- ndnfs-server (server/*.cc): names of interests, files, directories, and the interest handler.
pub mod Config
pub mod Name
pub mod Content
pub mod Meta
pub mod Html
pub mod Directory
pub mod Interest
pub mod Replies
pub mod Startup

-- ===== src/Clouds/Dropbox.antt =====
-- src/dropbox.cpp.
pub mod Entry
pub mod Changes
pub mod Kept
pub mod Ordering
pub mod Requests
pub mod Folders
pub mod Listing
pub mod Feed
pub mod Replies

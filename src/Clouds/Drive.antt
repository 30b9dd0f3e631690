-- ===== src/Clouds/Drive.antt =====
-- src/google.cpp.
pub mod Entry
pub mod Changes
pub mod Courses
pub mod Echo
pub mod Orphans
pub mod Requests
pub mod Folders
pub mod Listing
pub mod Feed
pub mod Replies

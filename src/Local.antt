-- ===== src/Local.antt =====
-- `LocalStorage` of include/LocalStorage.h and src/LocalStorage.cpp: the watched directory.
pub mod Names
pub mod State
pub mod Frame
pub mod Handlers
pub mod Watcher
pub mod Process
pub mod Paths

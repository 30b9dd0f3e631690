-- ===== src/Clouds.antt =====
-- src/google.cpp and src/dropbox.cpp: the two cloud drives behind `BaseStorage`.
pub mod Json
pub mod Sweep
pub mod Request
pub mod Service
pub mod Drive
pub mod Dropbox
pub mod Authorized

-- ===== src/Database.antt =====
-- include/database.h and src/database.cpp: the SQLite database that the storages share.
-- SQLite itself is not in the repository. The statements are translated by the documented meaning of
-- their SQL; the return codes of each call are an argument, so every failure path is a value.
pub mod Tables
pub mod Connection
pub mod Write
pub mod Read
pub mod Calls
pub mod Catalogue
pub mod Rows
pub mod Atomicity
pub mod Constraints
pub mod Integrity
pub mod Files
pub mod Links
pub mod Pairs
pub mod Settings
pub mod MissingPath
pub mod Queries

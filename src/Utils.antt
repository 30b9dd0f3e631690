-- ===== src/Utils.antt =====
-- include/utils.h and src/utils.cpp: the enumerations, paths and data transfer objects that every
-- other part exchanges.
pub mod Kinds
pub mod FilePath
pub mod Texts
pub mod Dto
pub mod Names

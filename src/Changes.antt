-- ===== src/Changes.antt =====
-- A change and the chain of commands that carries it to the other storages: include/commands.h,
-- src/commands.cpp, include/change.h, src/change.cpp and include/change-factory.h.
pub mod Command
pub mod Change
pub mod Factory
pub mod Flight

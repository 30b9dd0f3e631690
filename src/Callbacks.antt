-- ===== src/Callbacks.antt =====
-- `completionCallback` and `execute` of the commands of src/commands.cpp, up to `onCommandFinished` and
-- `continueChain`, which Changes has.
pub mod Passing
pub mod Handed
pub mod Loops
pub mod Moves
pub mod LocalCommands
pub mod CloudCommands

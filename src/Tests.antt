-- ===== src/Tests.antt =====
-- Runs of the models on concrete inputs, and instances of the theorems with hypotheses.
mod Data
mod Disk
mod Database
mod Settings
mod Changes
mod Events
mod Local
mod Callbacks
mod Sync
mod Worker
mod Manager
mod Http
mod Dispatcher
mod Web
mod Clouds
mod Polls

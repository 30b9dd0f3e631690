-- ===== src/Lib.antt =====
-- SyncHarbor keeps a local directory and several cloud drives alike. A storage (src/LocalStorage.cpp,
-- src/google.cpp, src/dropbox.cpp) reports what changed; ChangeFactory turns each report into a
-- Change, a tree of commands; SyncManager starts it, the HTTP client and the callback dispatcher run
-- its commands, and each command records its result in the SQLite database.
--
--   Utils      include/utils.h, src/utils.cpp: the enumerations and their stored names (Kinds), the
--              transfer objects and events (Dto), normalizePath over the part of
--              std::filesystem::path that the program uses (FilePath), and the texts of paths and times
--              with convertCloudTime (Texts).
--   Database   include/database.h, src/database.cpp. Tables holds the four tables of create_tables
--              with AUTOINCREMENT, the primary keys, UNIQUE and the foreign keys. Connection is the
--              state: the tables, and those at the BEGIN of an open transaction. A method is a
--              function of the connection and of Codes, which say for each of its SQLite calls
--              whether it succeeds. Write and Read have one function per method, Calls the histories
--              of writing methods. Laws: Atomicity, Integrity, Catalogue (what it
--              promises of files), Files, Links, Queries, Settings, MissingPath.
--   Registry   src/event-registry.cpp: the events that the program expects of the file watcher.
--   Queue      include/thread-safe-queue.h: each method is one step, and Queue/Laws has the
--              interleavings of steps.
--   Changes    Command (include/commands.h, src/commands.cpp), Change (src/change.cpp), Factory
--              (include/change-factory.h), and Flight: the runs of a change's commands, which finish
--              in any order (the end of each completionCallback) or are dropped by the worker of
--              src/Networking.cpp after a request that failed.
--   Manager    src/sync-manager.cpp, handleChange, startChange and onChangeCompleted: one change of a
--              path runs at a time. Its log says which changes are started and which paths are made; what
--              comes of createPath, and whether it throws, is a parameter there, as handleChange is in
--              InitialSync.
--              CreatePath has createPath over the local storage and the clouds; InitialSync and PushLocal
--              the two loops of initialSync, over the groups of initial_files and the clouds' ids.
--   Http       src/Networking.cpp, src/active-count.cpp and scheduleRetry of src/request-handle.cpp:
--              the queue, the active and the delayed requests, and the count, as steps of the worker
--              and of those that submit, the increment and the push apart.
--   Dispatcher src/CallbackDispatcher.cpp, syncDbWrite, over the methods of Database. Worker: submit, the
--              worker and the count of callbacks, as steps that interleave.
--   Local      src/LocalStorage.cpp: the names of temporary files (Names), the state with the file system
--              as a parameter (State), the handlers of one event (Handlers), onFsEvent and
--              proccessChanges (Watcher), the procces functions (Process), createPath and initialFiles
--              (Paths). Laws stand below each; Frame composes what a step does to its state.
--   Callbacks  src/commands.cpp, completionCallback of every command over the storages and the database,
--              with the loops that give the next commands their DTOs (Passing).
--   Clouds     src/google.cpp, src/dropbox.cpp: the set-ups of requests (Requests), createPath and
--              ensureRootExists (Folders), initialFiles (Listing), the polls (Feed), proccessChanges
--              (Entry, Changes) and the procces functions (Replies). Json has what the code writes with
--              its JSON library, Request what a set-up puts into a handle, Service the answers to
--              syncRequest, whose retries clear what was there, Sweep what the two proccessChanges share. The JSON library, the calendar,
--              curl_easy_escape, std::filesystem::relative, the files that open and the service are
--              parameters.
--   Tests      runs on concrete inputs.
--
-- Numbers are unbounded: an int key, a time_t and a 64-bit size or hash stand for themselves, and the
-- counter of a change is an integer far from the bounds of int. Every loop of the models is a
-- recursion on a list or a tree, except for those that a service ends: the polls and the listings of
-- the clouds are given a number of pages, any number is allowed, and where it does not suffice the
-- outcome says so. SQLite is a set of codes and the meaning of the statements that the source
-- executes; a failed statement leaves its tables alone, and a rollback always succeeds. The JSON
-- library is a parameter: JsonLibrary for Database, with the round trip of dump and parse as its law,
-- and JsonValues for Clouds, where a theorem says what it needs of the values. A mutex makes a method one step.
--
-- Not modelled: the transfer of requests by libcurl, the requests for tokens, the terminal and the
-- daemon, the log, the system's clock, the directory branch of the second loop of initialSync, the
-- polling loop, and the start and stop of the file watcher and of the dispatcher.
pub mod Base
pub mod Utils
pub mod Database
pub mod Registry
pub mod Queue
pub mod Changes
pub mod Local
pub mod Callbacks
pub mod Clouds
pub mod Manager
pub mod Http
pub mod Dispatcher
pub mod Tests

-- ===== src/Lib.antt =====
-- Verification library for rshs, a hybrid HTTP and WebDAV file server (src/).
--
-- The program. A request runs through the middleware stack to a handler. All handlers share one
-- `AppState` (src/server/mod.rs): the served root, the lock store, the dead properties and a cache
-- of canonical folders. `lock_enforce` (src/middleware/lock.rs) refuses writes to locked paths;
-- LOCK and UNLOCK (src/handlers/locks.rs) change the lock store; a background task
-- (src/server/cleanup.rs) prunes it. Every path of a request is resolved under the served root by
-- src/utils/path.rs.
--
-- The files.
-- - Common: byte strings (text is its UTF-8 bytes), Boolean tests, list functions.
-- - Map: `HashMap` as an association list; its iteration order is the order of the list.
-- - FilePath: `std::path::Path` as the list of its components.
-- - Http, App: status codes, headers, requests, `AppState`, and handlers as functions from a state
--   to a result and a state. `Platform` holds what is not in the repository: the calls of tokio::fs
--   on a disk, percent-encoding, the XML reader, the guess of a content type and the hash.
-- - Lock, Headers: the records and header parsers of src/webdav/mod.rs.
-- - IfHeader: the `If` header of src/webdav/ls.rs, its parser and its evaluation.
-- - LockStore: the search for locks on ancestors (src/webdav/ls.rs) and `is_path_locked`
--   (src/middleware/lock.rs).
-- - Resolve: src/utils/path.rs and the resolution methods of `AppState`.
-- - LockHandler: src/handlers/locks.rs. `handle_lock` holds the write guard twice; the two sections
--   are `lock_acquire` and `lock_commit`, and `between` is what other tasks do between them.
-- - Locking: the cleanup task, and the interleaving of all sections under the guard as a step
--   relation. Locking.Spec is a table of the active locks and the actions that it allows, without the
--   representation of the store.
-- - FileHandlers: src/handlers/http.rs, and MKCOL of src/handlers/webdav.rs.
-- - Auth, Tailscale: src/auth.rs (its shadow files in Auth.Shadow) with src/middleware/auth.rs, and
--   src/middleware/tailscale.rs. SHA-512 crypt, SipHash, base64 and UTF-8 are parameters.
-- - Method, Middleware: src/webdav/method.rs and src/middleware/lock.rs.
-- - Time: src/utils/time.rs, with the calendar that `civil_from_days` is measured against.
-- - Body: the parsers of PROPFIND and PROPPATCH bodies in src/webdav/mod.rs.
-- - Xml: the documents of src/webdav/xml.rs, and those of src/handlers/locks.rs and
--   src/handlers/webdav.rs, as the events that are given to the XML writer.
-- - Uring, Scan, Webdav: src/scandir.rs, src/webdav/fs.rs, and PROPFIND, PROPPATCH, COPY and MOVE of
--   src/handlers/webdav.rs. `Webdav.Transfer` goes through the guards, the removal of a target of the
--   other kind, the copy, and what is left to do behind it; its Outside, Inside and Rooted follow what
--   is at one path through all calls. Webdav.Below says which entries lie below a folder.
-- - Server: the order of the layers and the dispatch of src/server/mod.rs, with
--   src/middleware/health.rs. Server.Frame, Server.Walks and Server.Runs show what each handler does
--   to the lock store.
-- - Tls: src/server/tls.rs. Cli: the methods of src/cli.rs.
-- - Startup: `main`, `start_server`, and the life of the server behind them.
-- - Listing: the page of src/html.rs that lists a folder.
-- - Examples: a concrete tree and store on which the theorems are applied.
--
-- Numbers and time. Times and durations are natural numbers of nanoseconds; one section under the
-- guard reads the clock once. Header numbers keep the bound of 64 bits of `u64`.
--
-- Fuel. The loops of the `If` header's parser run on one more than the length of the text that is
-- left, and the walk over the parents of a path on the length of the path; each round takes at
-- least one byte, or one component, off. `decode_xml_char_refs` runs on the length of its text, and
-- a reference takes three bytes; the digits of a number run on twenty, enough for 64 bits. The
-- walks of COPY and PROPFIND over directories take one round for each directory, and are `none` on
-- too little fuel; a weight of directories bounds both.
--
-- Not modelled. Signals, sockets and the definitions of arguments are system calls and calls of
-- crates, as are rustls and its PEM reader, and one ring of `statx` calls. Logging has no
-- counterpart. A poisoned mutex, from which the source recovers, cannot occur in the model.
pub mod Common
pub mod Chain
pub mod Map
pub mod FilePath
pub mod Http
pub mod Lock
pub mod IfHeader
pub mod LockStore
pub mod Headers
pub mod Time
pub mod Xml
pub mod App
pub mod Resolve
pub mod LockHandler
pub mod Locking
pub mod FileHandlers
pub mod Auth
pub mod Tailscale
pub mod Method
pub mod Body
pub mod Uring
pub mod Scan
pub mod Webdav
pub mod Middleware
pub mod Server
pub mod Cli
pub mod Listing
pub mod Tls
pub mod Startup
pub mod Examples

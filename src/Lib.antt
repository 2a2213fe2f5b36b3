-- ===== src/Lib.antt =====
-- UNIT3D-Announce, a BitTorrent tracker that keeps its swarms in memory: clients announce to it, it
-- answers with peers, and it writes what it learns to a database in batches.
--
-- The parts, by file of the repository:
-- - src/announce.rs: Announce is the handler `announce`, from the request to the answer. Its parts
--   are Announce/Request (the checks up to the passkey), Announce/Connect (`check_connectivity`),
--   Announce/Admit (the checks on torrent, user and group), Announce/Swarm (what happens to the
--   torrent under its lock), Announce/Answer (the peer lists and the bytes of the response),
--   Announce/Credit (the factors) and Announce/After (users and queues). Announce/State is the state
--   that they pass on. Announce/Query is the extraction of the query, Announce/ClientIp that of the
--   client's address.
-- - src/api/*.rs: Api/Torrents, Api/Users and Api/Sets (groups and the sets); src/routes.rs:
--   Api/Routes, where an endpoint or an announce is a step of a run.
-- - src/config.rs: Config (the settings), Config/Env (`from_env`, in parts) and Config/Reload.
-- - src/main.rs: Server, the listener and the shutdown, with the flushes of all queues of
--   src/queue.rs.
-- - src/utils.rs: Utils. src/model/info_hash.rs, src/model/passkey.rs: Model/Hash.
--   src/model/torrent_status.rs: Model/Status.
-- - src/store.rs and src/store/*.rs: Store, over Prelude/Map, a model of the `IndexMap` of indexmap;
--   Load fills the stores at the start, `from_db` and `Stores::new`, from the rows of the queries.
-- - src/queue.rs: Queue; src/queue/*_update.rs: Queue/Updates. Queue/Flow has the flushes as steps.
-- - src/scheduler.rs: Scheduler. src/rate.rs: Rate and Rate/Parse. src/stats.rs: Stats.
-- - src/error.rs: Error. src/warning.rs: Warning.
-- - Bencode is the encoding as its specification states it, for comparison.
--
-- How the code is read. Structures are records with the fields' names, enums data types, unsigned
-- integers natural numbers with saturation, and wrapping as in a release build, written out
-- (Prelude/Word), signed ones the integers of Prelude/Int, byte strings and texts lists of bytes.
-- Times are nanoseconds from the least time of chrono. `Result` is ok, err or panic; the fallible
-- functions that use anyhow return an `Outcome`, whose error has no content. A panic of the
-- standard library (an index out of bounds, a duration out of range, an empty range) is a value,
-- so that its absence can be stated.
--
-- Parameters. The clock, the outcome of a connection, the draws of rand (`choose_multiple` and
-- `random_range`) and the floating point numbers of the rates are arguments; where a result needs
-- that a draw picks different elements of its list, this is the record `Chooses`. A clock before
-- the epoch is `none`, and a number says for how many peers a draw can reserve memory: beyond
-- these the program panics. What the standard library makes of the text of an address or of a
-- floating point number, the environment, the headers of a request and the rows of the database's
-- tables are arguments as well. The database accepts or refuses a batch: both are steps, or a test
-- of the batch.
--
-- Fuel. `chop`, the loop of `take_batches`, has the number of records for fuel and removes at least
-- one each time; `decimal` has the number itself, which is at least the number of its digits. The
-- loop of the shutdown has the number of flushes that the source allows.
--
-- Not modelled: the SQL of the queries and of the flushes, the JSON of the endpoints, the sockets,
-- the signals and the tasks of the server. Handlers that interleave at the locks, and torrents that
-- the reaper visits in parallel, run one after the other here.
pub mod Prelude
pub mod Utils
pub mod Load
pub mod Model
pub mod Rate
pub mod Stats
pub mod Config
pub mod Store
pub mod Warning
pub mod Bencode
pub mod Error
pub mod Announce
pub mod Api
pub mod Queue
pub mod Scheduler
pub mod Server
pub mod Tests

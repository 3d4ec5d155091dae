-- ===== src/Lib.antt =====
-- atmoq: a relay of the atproto firehose over MoQ. This library models the core of the Rust
-- implementation, the crate rust/crates/atmoq.
--
-- The program reads frames from an upstream websocket, validates and parses each (frame.rs,
-- which calls the validator of drisl.rs). The pump (main.rs) drops what it has relayed before,
-- routes each frame to the track of its account (router.rs) and publishes it in groups, which go
-- to segment files, from which replays are served (store.rs). A consumer reads the groups back
-- (main.rs).
--
-- * Common holds the shared helpers: Boolean tests, byte lists, results, positions in a byte
--   list (Common/Positions), bits as arithmetic (Common/Bits) and integers of 64 bits
--   (Common/Int).
-- * Drisl models rust/crates/atmoq/src/drisl.rs: `validate_item` with the functions that its
--   branches name. Drisl/Syntax is an independent description: documents as a data type, their
--   canonical encoding and their validity. Drisl/Numbers, Drisl/Shape and Drisl/Head relate the
--   heads, Drisl/Accepts goes from documents to the validator, Drisl/Found and Drisl/Sound go
--   back, Drisl/NoPanic follows the indexing, Drisl/Correct draws the conclusions,
--   Drisl/Examples runs the validator.
-- * Frame models rust/crates/atmoq/src/frame.rs: `Frame::decode` (`boundary` up to the call of
--   the CBOR library, then `decode`), `Frame::parse` and `field`. Frame/Laws is about the
--   boundary, Frame/Parse about the rest.
-- * Car models rust/crates/atmoq/src/car.rs, the block reader of the archives that a commit
--   carries: `varint`, `read_cid` and `blocks`. Car/Varint and Car/Cid describe an encoder,
--   Car/Blocks an archive, Car/Total counts the rounds of the loop and follows its slices.
-- * Store models rust/crates/atmoq/src/store.rs: `GroupStore` as a record, its operations as
--   functions to a new store and a result. Store/Codec is the record format (`append`,
--   `read_record`, `read_full_or_eof`), Store/Files the file list, Store/Append a write that
--   succeeds, Store/Keeps what an append leaves readable, Store/Failure one that fails,
--   Store/Order the order of the index and Store/Indexed what an append does to it, Store/Limits
--   and Store/Retention `gc`. Store/Scan is `open` and `scan`: Store/Scan/Total the end of its
--   loop, Store/Scan/Synced any directory, Store/Scan/Records and Store/Scan/Recover a file of
--   whole records with a torn tail.
-- * StateFile models the sequence file and the cursor file of rust/crates/atmoq/src/main.rs
--   (`write_state_file`, `persist_group_seq`, `load_group_seq`, `persist_cursor`,
--   `load_initial_cursor`); StateFile/Decimal is about their decimal texts.
-- * Moq is what the program calls of the MoQ library, a parameter of the modules that use it.
-- * Publisher models `FramePublisher::Lite` of main.rs with `build_lite_publisher`,
--   `reload_window`, `make_first_group` and `StoreSource::group`. Publisher/Steps takes a
--   successful write apart, Publisher/Stream follows the live group, Publisher/Restart the first
--   sequence of a run, Publisher/Sequences a run and the restart behind it.
-- * Dedupe is the test on sequence numbers that the pump and the reader share.
-- * Pump models `pump` of main.rs: `on_frame` is the body of its loop, and the interface
--   `FramePublisher` is what it calls; `lite` fills it. Pump/Effects is about the calls,
--   Pump/Cursor about the mark and the cursor file.
-- * Router models rust/crates/atmoq/src/router.rs: `request` is a turn of the request loop of
--   `DidRouter::spawn`, `unused` the end of a watcher, `route` and `event_did` keep their names.
--   Router/Steps is the transition system of the three, Router/Entries the map.
-- * Reader models `moq_reader` and `frame_seq` of main.rs.
-- * Ingest models `relay_frames` of rust/crates/atmoq/src/ingest.rs, a turn of the `select!` at
--   a time, and `spawn_ingest` of main.rs.
-- * Dialect07 models rust/crates/atmoq/src/dialect07.rs: `Publisher07::write`, the loop of
--   `ResilientPublisher::write`, `subscribe_loop` and `subscribe`.
-- * Metrics models the counters of rust/crates/atmoq/src/metrics.rs.
--
-- Bytes are numbers, machine integers are numbers with the wrap-around written out, and an index
-- or a slice out of range is the result `panic`; `usize` has 64 bits. The validator recurses on
-- the levels that are left, `max_depth + 1 - depth` of the source, which is its own bound. The
-- loop of `blocks` has the length of the reader as fuel, since every round takes a byte at
-- least, and to run out of it is `panic`; the loop of `scan` has one more than the length of the
-- file, since every record has a header at least. The loops that wait for the world, as the pump
-- and the reconnects do, run over the list of what the world does. Additions of offsets in the
-- validator do not wrap, as a slice is shorter than 2^64; sums of sizes and offsets in the store
-- do not wrap either, and neither do the counts of frames in a group, which stay at or below the
-- group size.
--
-- Taken as parameters: the CBOR library (`Cbor` of Frame) and what a write does (`Outcome` of
-- Store): it reaches the file, or part of it does and the buffered writer keeps some of the
-- rest, from its front. Opening, reading, deleting and flushing at a rotation succeed where the
-- file is there. The path of a segment is the number of its stem and its extension; a reader of
-- a file is its bytes from an offset on.
--
-- The MoQ library (`Moq`) keeps a group's frames and the highest sequence of a track (`IsMoq`);
-- moq-transport (`Serve` of Dialect07) makes subgroups and takes objects. What a write of a
-- state file does is a `WriteOutcome`. The counters of `Metrics` are shared by all tasks; each
-- model keeps the fields that its part changes. The locks of the router and the store are the
-- borders of an operation.
--
-- Not modelled: the printing of the firehose command (`print_events`, `print_ops` of main.rs),
-- the counting of sessions and the startup in `serve` and `relay`, the connection itself
-- (`subscribe_repos` of ingest.rs, `publish` of dialect07.rs), the text of the metrics and the
-- web endpoints, the JSON view (json.rs), and the copies of the MoQ libraries under rust/vendor,
-- which belong to another project.
pub mod Car
pub mod Common
pub mod Dedupe
pub mod Dialect07
pub mod Drisl
pub mod Frame
pub mod Ingest
pub mod Metrics
pub mod Moq
pub mod Publisher
pub mod Pump
pub mod Reader
pub mod Router
pub mod StateFile
pub mod Store

-- ===== src/Lib.antt =====
-- machineemu runs virtual machines: a daemon (crates/machineemu) keeps instances, their runs and
-- the operations on them in the tables of a workspace (crates/machineemu-core), and a display
-- helper (crates/display-stream) keeps the framebuffer of a running machine and sends video to a
-- viewer as records of a byte protocol (crates/display-stream-protocol). This library models the
-- parts below.
--
-- Prelude and Prelude/*: tests and lemmas on numbers, lists, slices and results that all parts
-- share.
--
-- Protocol and Protocol/*: crates/display-stream-protocol/src/lib.rs. Record, RecordType and
-- VideoError are the types of the source; Wire.encode and Wire.decode are Record::encode and
-- decode, each a function of the buffer that returns the buffer it leaves. The integer readers and
-- writers of the bytes crate are a parameter (Buf.ByteBuf) with their documented laws, and
-- Buf.big_endian is one that has them. Wire/Stream has the record loop of
-- crates/display-stream/src/bin/probe.rs; the loop runs on fuel, and one round more than there are
-- bytes is enough.
--
-- Display and Display/*: crates/display-stream/src/frame.rs. Frame is the framebuffer with its
-- accumulated damage; empty, scanout, update, copy_rect and take_damage are the methods of these
-- names. 32-bit arithmetic wraps, as in a release build, and a slice out of range is the outcome
-- `panicked`, as is a zeroed buffer of more than isize::MAX bytes; memory is assumed to be enough.
-- Tiled, Capture and Callbacks have crates/display-stream/src/listener.rs: the conversion of an
-- X-tiled buffer, what the display callbacks do to the captured frame and cursor, and sequences of
-- these callbacks. What a mapped file holds is an argument of each callback.
--
-- Domain and Domain/*: crates/machineemu-core/src/domain/mod.rs and
-- crates/machineemu-core/src/error.rs: identifiers, the states of an instance and the transition
-- table. The payload of an error is kept where it is a name of a record or a state; the text of a
-- message is shortened.
--
-- Storage and Storage/*: crates/machineemu-core/src/storage/instances.rs, runs.rs and
-- operations.rs, over the tables of storage/mod.rs. Db is the database with the columns that the
-- modelled statements name. A call is an Action: a function of the database to a value or an error
-- and the database that it leaves, which after an error is not the old one if the call had written
-- before. Table has the SQL statements as functions on rows, Instances, Operations, Interrupted,
-- Removal and Publish have the calls, Snapshots the row of a new snapshot (snapshots.rs), Upgrade
-- the row of an instance whose engine is upgraded (configuration.rs), and Commands has them as one
-- type. Instances/Requests has sequences of transitions. Keeps and Consistent carry the invariant
-- through the calls. Assumed or given as arguments: SQLite carries out its statements (its own I/O
-- errors have no counterpart); whether a process is alive; the digest of an input; whether the
-- directory of an instance could be removed; whether the checks of a publication on image,
-- directory and staged files passed; whether the files of a snapshot could be staged and its
-- manifest has a new digest; whether the document of an upgraded instance could be written. Rows
-- have the time of their insertion only where a query sorts by it.
--
-- Runtime and Runtime/*: crates/machineemu-core/src/runtime/lifecycle_async.rs. start_instance,
-- pause_instance, resume_instance, reset_instance, stop_instance and recover_instance_run are the
-- functions of these names with the suffix _async, over the calls of Storage. The answers of QMP
-- and of the process are arguments, so that the wait for the socket and the wait for the exit,
-- which end by a deadline, are each one answer; callbacks that are only told of rows are left out.
-- Session has sequences of these calls and those of Storage, between which processes and files may
-- change.
--
-- Watcher and Watcher/*: crates/machineemu/src/api/run_events.rs and remove_if_disposable of
-- instances.rs beside it: what the daemon does when a process ends or QMP reports, over the calls
-- of Storage. The connection that it holds, the answers of the process and whether the helpers
-- could be stopped are arguments. Session of Runtime has these calls among its events.
--
-- Events and Events/*: crates/machineemu/src/api/events.rs, the event hub and its cursors.
-- Histories has the records of the instances with the two loops that drop the oldest, Cursors the
-- identifiers of events. The channels of tokio are parameters. The second loop runs on fuel, and
-- one round more than there are records is enough.
--
-- Keymap and Keymap/*: crates/machineemu-viewer/src/keymap.rs, the key codes that the viewer sends.
--
-- Not modelled: the files of snapshots, images and garbage collection, documents and their
-- migration, process control and QMP, the launch plan engine, the clipboard, audio and input of the
-- D-Bus listener and its connection, the encoder, the rest of the viewer, the other HTTP handlers
-- and the command line. Most of them is input and output; the others are independent of the parts
-- above.
pub mod Display
pub mod Domain
pub mod Events
pub mod Keymap
pub mod Prelude
pub mod Protocol
pub mod Runtime
pub mod Storage
pub mod Watcher

-- ===== src/Lib.antt =====
-- RemoteFS mounts a directory tree that lies in a remote content-addressed store as a read-only
-- file system. The daemon keeps one session: a SQLite database of inodes, a cache of verified
-- blobs and an overlay. A directory is fetched when it is first looked at: its REAPI message is
-- read through the cache, decoded and validated, and its children are stored as inodes in one
-- transaction. The kernel asks by FUSE; the adapter calls the filesystem service, which calls
-- the session. A local directory becomes such a tree by an upload: it is scanned, its files are
-- hashed, its directories are encoded from the deepest up, and what the store lacks is sent by
-- the CAS client. The command line starts the daemon and talks to its control service, which
-- gives the session, the mount and the socket to one place that releases them.
--
-- Parts, by file and source:
-- - Base: results with `?` as a bind, equality tests with their law, integers, texts as lists of
--   bytes, the test that they are UTF-8, decimal numbers, and lists measured by native numbers.
-- - Digest (crates/rfs-common/src/digest.rs): `new`, `to_reapi`, `from_reapi`, `from_str`,
--   `to_string` (Display), `for_bytes`, `verify_bytes`. Digest/Validity, Display, Verify prove.
-- - Tree (crates/rfs-common/src/tree.rs): Tree/Types has the entries and the REAPI messages,
--   Tree/Metadata modes, times, names and targets, Tree/Builder `DirectoryBuilder`, Tree/Decode
--   `decode_directory`. The other files of Tree/ prove.
-- - Session (crates/rfs-common/src/session.rs and session/): Session/Types has identities, times
--   and errors, Session/Store the database (Rows, Validate, Metadata for rows, Database for
--   tables, SQL statements and transactions, Operations for `SessionStore`), Session/Cache
--   `CachedBlobStore`, Session/Projection the conversions between layers, Session/Facade
--   `Session`, Session/Home what lies in `RFS_HOME`, and Session/Opening `Session::open` and
--   `inspect`. The state of a session is the record `Facade.Session`; a method is a function
--   from it to a result and the session afterwards (Session/Action).
-- - Mount (crates/rfsd/src/filesystem.rs and fuse.rs): Mount/Filesystem is `FilesystemService`,
--   Mount/Fuse the functions of `FuseAdapter`, Mount/Serve its answers to the kernel's requests.
--   A request that the adapter does not override is answered by `fuser`: its answer is an input.
-- - Cas (crates/rfs-common/src/cas.rs): Cas/Blobs has blobs and errors, Cas/Batch
--   `upload_blobs_to_cas` with the calls that it makes, Cas/Retry `retry_rpc`, Cas/Names the
--   names of instances and resources, Cas/Client `find_missing_blobs` and `upload_blobs`,
--   Cas/Chunks the requests of a ByteStream write (`bytestream_write_blob` is in Cas/Batch),
--   Cas/Download `stream_blob`, Cas/Config the configuration. The state of the client is the
--   list of the calls that were made. Cas/Protocol is what a remote store promises. The other
--   files of Cas/ prove.
-- - Upload (crates/rfs-common/src/upload.rs): Upload/Types has options, errors and the local
--   tree, Upload/Paths names and orders of paths, Upload/Scan `scan_local_directory`,
--   Upload/Hash `hash_files`, Upload/Encode `encode_local_tree`, Upload/Send the trait
--   `BlobStore` and `upload_encoded_tree`, Upload/Pipeline `upload_local_directory`. The file
--   system is a tree of nodes (`Scan.Node`), in which any directory or link can fail to be read,
--   and what the reads of a file give. The other files of Upload/ prove; Tree/References is
--   about the digests in a directory.
-- - Daemon (crates/rfsd/src/control_service.rs and lib.rs, crates/rfs/src/daemon_client.rs):
--   Daemon/Arguments and Start construct the daemon, Daemon/Control has the slot and the channel
--   of `ControlService` with its endpoints, Daemon/Release `DaemonResources::release`,
--   Daemon/Serve `serve` as a step relation, with the requests of the kernel between its steps,
--   Daemon/Client `DaemonClient`. Daemon/Handover, Order, Conversation and Abandon prove.
-- - Cli (crates/rfs/src/cli.rs and crates/rfs-common/src/config.rs): Cli/Settings resolves the
--   configuration, Cli/Mount is `run_mount` with its effects (a failure to kill the child is
--   ignored, as in the source), Cli/Unmount `run_unmount` and `run_status`. What the system and
--   the daemon answer are records of inputs. Cli/Readiness, Exit and Laws prove.
-- - Tests: the theorems at concrete inputs.
--
-- Conventions. The text of a reason or of a context is dropped: an error is its kind under its
-- contexts. Numbers of 64 bits are checked where the source checks them (`i64::MAX`, `u32`).
-- SHA-256, the protobuf codec, the test for a UUID, the failures of SQLite and the remote store
-- are parameters; a hypothesis on them is stated by the theorem that needs it. All recursion is
-- on lists, numbers or the tree of nodes. Fuel is used for the digits of a decimal number, where
-- one more than the number is enough, and for the attempts of `retry_rpc`, where the number of
-- attempts is enough.
--
-- The loops of the command line that wait take as input what each turn meets; where no more
-- turns are given they stop as a turn past the deadline does. A `HashMap` keeps the order of
-- insertion.
--
-- Not modelled: locks and threads (a method runs alone, and the workers that hash run one after
-- another), failures of the local disk in the cache, mounting, the transport of the CAS client,
-- the attempts of a call before its last, a local directory that changes between the scan and
-- the hash except for the content of its files, sockets and signal handlers, the parser of
-- arguments, and printing.
pub mod Base
pub mod Digest
pub mod Tree
pub mod Cas
pub mod Upload
pub mod Session
pub mod Mount
pub mod Daemon
pub mod Cli
pub mod Tests

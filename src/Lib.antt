-- ===== src/Lib.antt =====
-- The engine of a replicated block volume. A controller takes reads, writes and unmaps from a
-- frontend and sends them to the replicas of the volume; each replica keeps the volume as a stack
-- of sparse files, one for each snapshot and a head that is written.
--
-- The parts and the files that model them. Paths are from the repository's root.
--
-- - pkg/types (types.go, error.go): Types has the modes WO, RW and ERR and the dynamic types of
--   errors that the code tells apart; Types.Errors has CombineErrors, GenerateFunctionErrorWithRollback
--   and WrapError.
-- - pkg/controller/replicator.go: Replicator has the state, AddBackend, SetMode, RemoveBackend and
--   buildReaderWriterUnmappers (`build`); Replicator.Io has ReadAt, WriteAt and UnmapAt;
--   Replicator.Calls has Snapshot, Expand, Close, the usages and the setters. Replicator.Backend is
--   the interface of a replica (types.Backend), a parameter.
-- - pkg/controller/multi_writer_at.go, multi_unmapper_at.go: Replicator.MultiWriter and
--   Replicator.MultiUnmapper, one step for each goroutine.
-- - pkg/controller/control.go: Controller has the list of replicas with the changes of modes and
--   RemoveReplica; Controller.Errors has handleErrorNoLock; Controller.Io has WriteAt, ReadAt,
--   UnmapAt and the aligned write of a volume in rebuilding; Controller.Expansion,
--   Controller.Snapshots and Controller.Replicas have the operations of those names, and
--   Controller.Salvage the choice of the replica to go on with.
-- - pkg/controller/rebuild.go: Controller.Rebuild has getCurrentAndRWReplica and
--   VerifyRebuildReplica.
-- - pkg/replica/diff_disk.go: DiffDisk has the state, `lookup`, RemoveIndex and Expand;
--   DiffDisk.Read, DiffDisk.Write and DiffDisk.Unmap have the I/O. A sparse file is a parameter,
--   DiffFile; SparseFile of DiffDisk.Layers and WritableFile of DiffDisk.RoundTrip are what the code
--   relies on of one.
-- - pkg/replica/replica.go: Replica has the state; Replica.Maps the maps of disks with Chain and
--   DisplayChain; Replica.Files the directory (an interface, Files) with encodeToFile, createNewHead,
--   linkDisk, rmDisk and their rollbacks as values; Replica.Create has createDisk, Snapshot and Expand;
--   Replica.Remove the removal, replacement and marking of disks; Replica.Unmap has UnmapAt;
--   Replica.Lifecycle the volume's metadata, openLiveChain, revertDisk, Close and Delete.
-- - pkg/replica/server.go: Replica.Server has the states of a server and its operations.
-- - pkg/dataconn (types.go, wire.go, client.go) and pkg/util/shared_timeouts.go: Dataconn has the
--   messages, Dataconn.Wire their bytes, Dataconn.Client the loop of a client, one event for each case
--   of its select, and Dataconn.Timeouts the timeouts that clients share. Dataconn.Server has what the
--   server (server.go) makes of one message.
-- - pkg/sync/rpc/list.go: SyncAgent.Backups has the list of backups, SyncAgent.Hashes that of the
--   snapshot hash jobs.
-- - The other files below DiffDisk, Replicator, Controller, Replica, Dataconn and
--   SyncAgent hold specifications and proofs.
--   DiffDisk.Content says what a volume holds; Replicator.Index, Controller.Modes and
--   Replica.Snapshots say what holds of their states between two operations. Tests has the examples.
--
-- The controller calls the replicator, the replicator the fan-outs, and those the replicas; an error
-- comes back the same way, gets an address in the replicator and changes modes in the controller. A
-- replica's state is in a heap under a pointer, so that one object behind two slices is one object.
--
-- Conventions. Numbers are natural; an offset or a size of an int64 is never negative where the code
-- checks it first, and a sum that can pass 2^63 or a uint32 that can wrap is written out. A count
-- that the code takes apart by subtraction is an integer. A lock makes the code between it and its
-- release one step. The order in which Go ranges over a map, and the order in which goroutines take
-- effect, are arguments. `none` in place of a whole result, and `panic` of Run, are a panic of the
-- process. Loops recur on the list or on the rounds that are left, so that no fuel is needed; a
-- counted loop gets its count from the code's own bound. A walk along the parents of disks has as many
-- rounds as there are records, since one that meets more of them never ends.
--
-- Not modelled: construct with the reading and the recovery of a replica's metadata (an argument of the
-- server), and WriteAt, ListDisks, Preload and GetDataLayout of pkg/replica/replica.go; the hashing of
-- snapshots and preload of pkg/replica/diff_disk.go; the goroutines of pkg/dataconn that move messages; Start, Shutdown,
-- metrics, monitoring and file system freezing of the controller; the rest of the sync agent (pkg/sync);
-- the revision counter. Most of that calls the system or other processes. The frontends, the backup and backing-file code, the gRPC
-- clients and servers and the command line are glue around other libraries, and the vendored libraries
-- belong to other projects.
pub mod Controller
pub mod Dataconn
pub mod DiffDisk
pub mod Prelude
pub mod Replica
pub mod Replicator
pub mod SyncAgent
pub mod Tests
pub mod Types

-- ===== src/Lib.antt =====
-- rebost: a distributed object store. A node keeps volumes on its disks. A volume (volume/volume.go)
-- keeps each content once, in a file named by its hash, and the indexes of its files in buckets of a
-- key-value store. Every operation of a volume runs in a unit of work (boltdb/unit_of_work.go inside
-- fs/unit_of_work.go): a transaction over the buckets, and a file system that notes how to undo and
-- how to finish what is done to it.
--
-- Go functions that change state and return an error are functions `Exec S A`, from a state to a
-- result and a new state, in every case. A result is a value, an error, which is its text, or a panic
-- (a nil dereference, an index or a capacity out of range, a text that `MustCompile` does not take).
-- `Ensures` states that a function does not panic and what holds where its error is nil, `Yields` the
-- second alone; `Keeps` states what holds in every case; `Returns` states that its error is nil; `GoesOn` that no error comes out, but for a panic.
--
-- Files and code:
--   Prelude: shared names, tests, lists, and `int` as signed integers of 64 bits that wrap around.
--   Exec: results, the monad of fallible functions, and its logics.
--   Platform: what is called and not implemented here: bbolt, afero, time formats and SHA-1, one
--     record of operations, with the documented behaviour as the records IsBolt and IsAfero. What the
--     store accepts as a key is IsQuiet and IsTaken, in Volume.Liveness.
--   File, Index, State, Replica: file/file.go, idxkey, idxttl and idxvolume, state/state.go,
--     replica/replica.go. File.Paths, State.Accounting and Index.Signatures have their theorems.
--   FsUow: fs/unit_of_work.go. `Tracker.room` is the capacity of the slice `rollbackActions`: `Remove`
--     appends to that slice twice, and the two results share their last cell where there is room.
--     FsUow.Settles has what commit and rollback do.
--   BoltDb.Repositories: boltdb/file.go, idxkey.go, idxttl.go, idxvolume.go, replica.go, state.go,
--     helper.go, one function per method. BoltDb.KeyGenerate: boltdb/key_generate.go.
--     BoltDb.Uow: boltdb/unit_of_work.go nested in fs/unit_of_work.go, as cmd/serve.go nests them.
--   Catalog: the abstract view of a volume, a map from keys to signatures and one from signatures to
--     files; Catalog.Consistency: that the two agree, and the moves that keep that.
--   Volume: volume/volume.go and volume/ttl.go. Create is `CreateFile`, Delete is `DeleteFile` and the
--     loop of `loopTTL`, Reads is `GetFile`, `HasFile`, `NextReplica` and `GetState`, Replicas is
--     `UpdateReplica`, `UpdateFileReplica` and `SynchronizeReplicas`, Reset is `Reset`, `createID` and
--     `calculateSize`, Start is `New` and the loop that updates the state. Volume.Leftover and
--     Volume.Reset.Closed have what a content that is too large and a reset leave on disk, the second on
--     file systems with directories, which are its hypothesis HasDirs. What a call
--     reads from outside (clocks, fresh UUIDs, the outcomes of `Begin`, `Commit` and `Rollback`) is the
--     record `Inputs`.
--   Membership: membership/event_delegate.go, delegate.go and the queries of membership.go. What the
--     cluster sends (memberlist) is an argument. Membership.Volumes follows the removed volumes,
--     Membership.Events has the histories of events, each of which takes effect at once, and
--     Membership.Start has `New`.
--   Config: config/config.go over viper as a parameter. Model: storing/model/config.go and the bodies of
--     requests. Http: requests, responses and JSON of the API; go-kit, gorilla/mux, net/http and the
--     conversions of strconv and time are the parameters `Kit` and `Texts`. Http.Laws states what is
--     used of them: IsKit (a server decodes, calls, encodes; a client sends what it encodes), IsRouted (the
--     router reads a key back from the path that it stands in), FindsConfig, IsCarried (the text of a
--     duration and of a time is read back), IsTyped (the types of contents).
--   Storing: storing/service.go over an interface of volumes, which local volumes and clients fulfil.
--     The answers of the volumes that `findVolume` asks at the same time come as a list in the order
--     in which they come in; the end of the caller's context is not modelled. Storing.Replication: one
--     round of each loop of storing/replica.go; Calm and Rounds say that a round goes on to its end.
--   Serve: cmd/serve.go, how one volume is attached, and reset where it was down for too long, or is new.
--   Server: the interface `Service`, storing/transport.go and storing/endpoint.go: Wire decodes requests
--     and encodes responses, Handler has the endpoints and the routes.
--   Client: `New` and `getClient` of client/client.go. Client.Wire: client/endpoint.go and
--     client/transport.go; Client.Methods: the methods of client/client.go.
--   Remote: Client and Server put together, through `Kit`. IsTold states that a service neither panics nor
--     returns an error without a text, which a client could not tell from none.
--   Cluster: Storing and Client put together: local volumes and other nodes as the volumes of a service.
--   Node: Storing and Volume put together: a service with one volume, and as what Server serves.
--     Node.EndToEnd goes through all of them.
--   BoltDb.Registry: the repositories of a unit of work by their kind, `add` and the accessors of
--     boltdb/unit_of_work.go; Calls has the constructors, as cmd/serve.go calls them, and Supplied what a
--     unit of work finds after them.
--   Assoc: Go's maps as association lists.
--   Tests: a platform in memory, an HTTP kit in memory, runs, and the instances of the theorems.
--
-- Bounds: `digits` has fuel 20, and a 64-bit number has at most 20 digits. All other recursion is
-- structural, so that every function of the model returns.
--
-- Abstractions: an entry of a bucket is the value that it is marshalled from, so that no error of JSON
-- arises; `Create` and the copy into the new file are one step, where `Inputs` says how much of the
-- content the copy has hashed (`hashed`) and how much more it has written (`excess`): it stops early
-- where the reader or the disk fails, and the code ignores its error; units of work are run one after
-- the other, as bbolt's write transactions are. The disk's partitions come with the
-- result of the match of their mountpoint, or with none where it is no regular expression, at which
-- `MustCompile` panics. The cache is a parameter, and which entry it gives up when it is full is not
-- modelled. A tick of the expiration loop is no step of the histories:
-- it commits what a failed deletion has written.
--
-- A body in several parts (multipart) has parts that can all be read. The pause between rounds of a loop
-- and the end of a context are left out.
--
-- Not modelled: `Leave` of a membership, the command line but for the making of the repositories and the
-- attaching of a volume, the dashboard and the generated mocks.
pub mod Prelude
pub mod Exec
pub mod Platform
pub mod File
pub mod Index
pub mod State
pub mod Replica
pub mod FsUow
pub mod BoltDb
pub mod Catalog
pub mod Volume
pub mod Assoc
pub mod Membership
pub mod Storing
pub mod Client
pub mod Config
pub mod Model
pub mod Http
pub mod Serve
pub mod Server
pub mod Remote
pub mod Cluster
pub mod Node
pub mod Tests

-- ===== src/Lib.antt =====
-- A model of the Go backend of a collaborative text editor, and what it guarantees.
--
-- The program. Each replica holds a document: a doubly linked list of characters between two
-- sentinels, in which a deleted character stays as a marked element (the YATA algorithm). A
-- local edit is an operation with a unique identifier, a client and its clock. Operations travel
-- as JSON messages through a relay, which keeps rooms of sessions and passes each update on to
-- the others of the room. A client that is alone is answered from the snapshot of its room that the
-- relay has in a bbolt database. A catalog in SQLite has the names of the documents. A replica that
-- comes back sends a state vector and the set of deletions that it knows, and is answered with what
-- it lacks. A client keeps in a queue what it cannot send, and writes the queue out once it is
-- synchronised again.
--
-- The files, and the code that each is about (paths from the repository's root).
--   Base, Base/*            the shared types and lemmas: truth values and tests, lists, integers,
--                           strings as lists of code points, Go's maps as association lists, and
--                           runs that end with a value, with a panic or without fuel
--   Identifier, Presence    backend/internal/identifier/identifier.go (ID, NewID) and
--                           backend/internal/presence/presence.go
--   Protocol/Operations     backend/internal/protocol/operations.go and delta.go
--   Protocol/Messages,      backend/internal/protocol/messages.go: the messages, and each Decode
--   Protocol/Decoding       and Encode function with its checks
--   Document                backend/internal/document: element.go, buffer.go and the state and
--                           NewDocument of document.go
--   Document/Traversal      backend/internal/document/traversal.go: positions, the conflict zone,
--                           isOriginAfter, findInsetionPoint and the readers
--   Document/Update         backend/internal/document/document.go (InsertElement, integrateInsert,
--                           RemoteInsert, Delete, integrateDeletion, RemoteDelete, IntegrateDelta)
--                           and processPending, processPendingDeletes of traversal.go
--   Document/Valid          the invariant of a document; Chain, Positions, Linking, Marking and
--                           Conflicts are its lemmas on the list, on walks, on linking an element
--                           in, on marking one, and on the walk over the conflict zone
--   Document/Insertion,     InsertElement, Delete, integrateInsert, RemoteDelete and the readers,
--     Deletion, Integration, each as a whole
--     RemoteDeletion, Reading
--   Document/Siblings,      concurrent insertions between the same neighbours, in either order
--     Convergence
--   Document/PendingOrder,  the operations that wait: RemoteInsert with processPending and
--     Pending, CatchingUp,  processPendingDeletes (Growth: one integration; Delivery and Rounds:
--     Growth, Delivery,     the rounds of pending insertions; Sweep: the pending deletions)
--     Rounds, Sweep, Arrival, Remote
--   Document/Reversed,      RemoteInsert where the two neighbours stand in the list
--     Ordered
--   Sync, Sync/Continuity,  backend/internal/sync/statevector.go: GenerateStateVector,
--     StateVector,          GenerateDeleteSet, ComputeDelta and ComputeSerializedDelta
--     DeleteSet, Missing
--   Sync/Adapter,           backend/internal/sync/adapter.go: operations from and to messages
--     Sync/Laws, RoundTrip
--   Relay                   backend/internal/relay: hub.go, room.go and client.go; Sessions has
--                           the invariant; Joining, Joined, Leaving, Left and Membership are
--                           about Join and Leave, Broadcast is about the two broadcasts
--   Relay/Handshake         backend/internal/relay/handler.go: the first message of ws
--   Relay/Rounds            the message loop of ws, one message at a time; Cases, Isolation and
--                           Answering are about one round
--   Relay/Serving           ws from the first message of a connection to its deferred leave;
--                           Lifetime and Safety are about a whole connection
--   Storage                 backend/internal/storage/boltdb.go: OpenDB, createRoom and the snapshot
--                           of a room (Buckets: bbolt; Rooms and Snapshots: what is read after
--                           what has been saved)
--   Storage/Serializing,    backend/internal/storage/serializer.go, backend/internal/persistence
--     Keys, Documents       and the rest of boltdb.go: a document in the buckets of its room
--   Storage/Logs,           the logs of a document, saved and loaded
--     LogRoundTrip, Overlay
--   Storage/Elements        what LoadElements notes of a bucket
--   Storage/Walk            the walk of SaveElements
--   Hydration               backend/internal/document/hydrate.go (Relations: RebuildRelations;
--                           Restored, Neighbours, Counting, Placed: the list that it makes of what
--                           a valid document has saved; RoundTrip: ReconstructDocument; Image and
--                           Saved: from SaveElements on)
--   Catalog,                backend/internal/catalog/catalog.go, over the tables of database/sql
--     Catalog/Tables
--   HttpApi,                backend/internal/httpapi/handler.go: documents and patchDocument as
--     HttpApi/Documents     functions of the catalog's database
--   Client                  backend/internal/client/client.go, one function for what each method
--                           does under ConnMutex
--   Client/Schedule         the goroutines of a client as a step relation; Connection and Delivery
--                           are its invariants (with the counts of Counting)
--   Client/Flush, Join      FlushOfflineQueue from beginning to end; DialAndJoin against the relay
--   Client/Messages,        RemoteMessageLoop, one message at a time, and SendCurrentSnapshot, over
--     Answers, Arrival      the client and its document
--   Examples/*              the theorems at concrete inputs
--
-- How state corresponds. A *Element is an address in an explicit memory, with 0 for nil: sharing
-- and mutation are those of the code, and a dereference of nil, a slice with a negative capacity
-- and a slice of nothing are a panic of the run. A method takes the document, the hub or the
-- client, and gives the changed one with its result; errors are values with the source's
-- constructors. A mutex makes what stands under it one step. Go's int is a signed integer without
-- bounds. Identifiers compare by client and clock, clients in the order of their code points,
-- which is that of their UTF-8 bytes.
--
-- Fuel. Loops over slices and maps are recursion on lists. A walk along the linked list has as
-- much fuel as there are addresses in use, plus one: the list of a valid document has no address
-- twice, so that it ends before. The rounds of processPending have one more than there are pending
-- insertions: each round but the last takes one off. FlushOfflineQueue has one round more than the
-- queue has messages. No result below has enough fuel as a hypothesis.
--
-- Parameters. encoding/json is a pair of Marshal and Unmarshal per type, with the laws of
-- Sync.Laws.Laws: what Marshal wrote is read back, and raw text in a message keeps its
-- bytes. The order in which `range` visits a map of pending elements is any function that gives a
-- permutation of the entries; where the order of the other maps does not matter it is that of the
-- association list. go.etcd.io/bbolt is a type of buckets with Get, Put, Bucket,
-- CreateBucketIfNotExists and ForEach, and the laws of Storage.Buckets.BoltLaws: a write that
-- returns no error is found by later reads and changes nothing else. A transaction keeps its
-- changes if it returns no error and commits, which is an argument. A key is written as the code
-- points of its text. database/sql is what each statement of the catalog answers, with the laws of
-- Catalog.Tables.SqlLaws for a table with a primary key. The clock, generateUUID, the outcome of
-- each write to a websocket and that of dialling are arguments, or choices of a step.
--
-- Not modelled. A null in the arrays of a delta: protocol.Delta has pointers to operations, and the
-- model has operations. SendSync1 of the client, and the rounds of RemoteMessageLoop as steps among its
-- other goroutines; opening and closing the databases beyond
-- OpenDB; the routes, headers and timeouts of the HTTP server; the commands, which read flags and
-- print; and the frontend, which is in JavaScript. In Relay.Serving no other connection acts between
-- the messages of one; a round of Relay.Rounds takes any hub and database. The race between
-- SendOrQueue's unlocking and its write is in Client.Schedule; goroutines that share a document are
-- not interleaved. MarkOnline and SetConnection of the client, which no code calls, are no steps of
-- the schedule.
mod Base
pub mod Identifier
pub mod Presence
pub mod Protocol
pub mod Document
pub mod Sync
pub mod Storage
pub mod Catalog
pub mod HttpApi
pub mod Hydration
pub mod Relay
pub mod Client
mod Examples

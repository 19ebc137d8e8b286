-- ===== src/Lib.antt =====
-- otel-k8s-graph keeps a graph of a Kubernetes cluster and of what its services do in Redis.
-- graph-otel receives OTLP metrics, derives relationships (endpoints, topics, databases) into a set in
-- memory, expires what is old, and flushes the difference between two snapshots of the set to Redis.
-- graph-k8s watches the cluster's objects and writes entities and edges as they change. graph-read
-- serves what Redis holds.
--
-- Which file is about which part:
--   Base: texts, maps and tests that all parts share. Graph: internal/graph/interface.go; Graph/Keys:
--     internal/graph/keys.go; Graph/Inverse pairs each edge kind with the one that points back.
--   BatchSet: BatchWriteSet of internal/graph/batchset.go and Snapshot of batchset_redis.go.
--     BatchSet/Reads is about what a lookup finds after an operation, BatchSet/Sweep about the loops of
--     Expire, BatchSet/WellFormed about unique keys and non-empty metadata, BatchSet/Copy about Snapshot.
--   Delta: WriteDeltaToRedis of internal/graph/batchset_redis.go, on a server as Redis describes it.
--     Delta/Commands lists the commands, Delta/Pipeline is about how they are cut, Delta/Ids and
--     Delta/Effect about what they do to the set of all ids, and Delta/Edges about the sets of edges.
--   Strings: what the sources use of Go's strings package. Builder: internal/builder, a file for each of
--     its files; Builder/Derive/Sound and Emitter are about what a record gives, Builder/Templatize/Laws
--     and SpanName about paths, routes and span names.
--   Receiver: Export, deriveAll and ExpireAndSnapshot of internal/otlpreceiver/receiver.go, with the
--     invariant of the shared set (Receiver/Invariant) over pushes and sweeps (Receiver/Reachable).
--   Flusher: a flush of runFlusher in cmd/graph-otel/main.go, over Receiver and Delta; Flusher/Mirror
--     is about what Redis holds of the relationships after pushes, flushes and changes by others, and
--     Flusher/Edges about the sets of edges after one flush.
--   RedisWriter: internal/graph/rediswriter.go, the buffered writer of graph-k8s; RedisWriter/Buffer is
--     about what is sent, with the pipelines of Batches, RedisWriter/Ids about the set of all ids.
--   Watch: internal/k8swatch. Desired, Objects and Mapper are mapper.go, Dynamic is dynamic.go,
--     and Apply, Owner, Handlers and Informers are watcher.go; Apply/Store is a store with lookups
--     to read an update's effect from, Apply/Written is about RedisWriter as such a store,
--     Apply/Keys is about edgeKey and indexEdges, Mapper/Closed and Mapper/Mapped are about the
--     pieces of graph that the mappers give, Mapper/Every about all of them, and Informers/Deletes
--     about delete events.
--   Reader: internal/graph/redis.go. Reader/Int64 is parseInt64, Reader/Sort what sort.Slice gives,
--     Reader/Subgraph the breadth-first search (Offer, Walks, Invariant, Ends and Correct lead to its
--     result, Small and Reachable to a search without a bound), Reader/Places, Entries and Search are
--     about Search and ListByKind, Reader/Prune is Prune, with Stale and Exact about its effect, and
--     Reader/Written is about reading what a flush wrote.
--   Api: internal/api/api.go; Api/Safe is about what its handlers ask of the graph.
--   Mcp: the requests of internal/mcp; Mcp/Client is its HTTP client, Mcp/Asked is about what the API
--     answers to them, and Mcp/Stored puts RedisGraph behind the API.
--   Commands: the settings of the commands in cmd; Commands/Agree is about what they share.
--   Tests: concrete inputs.
--
-- A function that changes an object takes its state and returns the new one; an early return of a
-- deriver is `none`; the error of a flush is a Boolean. A Go map is an association list with one
-- entry for each key, and a loop over a map visits the entries in the order of the list. A string is
-- a list of bytes; ToUpper and TrimSpace are those of ASCII, and ToLower is a parameter. A time is a
-- number of ticks since the zero time, and a counter is a natural number; an int64 is its bit
-- pattern. All loops are structural but that of Subgraph, which has fuel: as much as there are ids
-- that can be loaded is proved to be enough. url.Parse, AsString of a value, the coding of JSON, the
-- way of a path to a handler, strconv.Atoi, time.ParseDuration, the lister of replica sets, the
-- accessors of unstructured objects and the Redis server are parameters; of the server, IsLawful in
-- Redis.antt states what the commands are documented to do, and that a pipeline without an error ran
-- all its commands; IsAnswered in Reader/Prune/Exact.antt what one prune relies on. A flush is one
-- step: the commands of other processes come between two flushes, not within one.
--
-- The reader sees what the server answers at the time of a call, with `none` for an error or a timeout.
--
-- Not modelled: the tickers, clients and listeners of the commands, the start of the informers, and the
-- sending of the MCP tools' requests, all of which call libraries. Logging, metrics and the headers
-- of HTTP are left out.
mod Base
pub mod Graph
pub mod BatchSet
pub mod Strings
pub mod Builder
pub mod Receiver
pub mod Watch
pub mod Redis
pub mod Delta
pub mod Flusher
pub mod RedisWriter
mod Tests
pub mod Reader
pub mod Api
pub mod Mcp
pub mod Commands

-- ===== src/Lib.antt =====
-- Tigris, a document database in Go over FoundationDB: a model of its core, and theorems on it.
--
-- A document is a row of FoundationDB, with its attributes (internal/data.go). The key-value layer
-- (store/kv) stacks stores on a transaction of FoundationDB: encoding of rows, payloads cut over
-- several rows (chunk.go), compressed payloads (compression.go). A query is a filter, from which the
-- planner derives the keys to read (query/filter/key_builder.go). All of it runs in the session of a
-- transaction (server/transaction/manager.go). A collection keeps the history of its schema, from
-- which the changes of each field are found, and rows of older versions are updated
-- (schema/migration.go). The fields of a document are indexed, and the index is read in the order of
-- the values (server/services/v1/database/secondary_indexer.go, value). The metadata is rows of
-- subspaces (server/metadata): namespaces, databases, collections and primary indexes, each with an
-- identifier, the versions of schemas, and a queue of background work.
--
-- Which file models what:
--   Base           errors/errors.go as values, with Go's int32, lists, and Boolean tests
--   Kv/Data        internal/data.go: TableData, Encode, Decode
--   Kv/Fdb         the transaction of FoundationDB, which is a parameter, with its documented laws
--   Kv/KeyValue    store/kv/fdb.go (ftx) and kv_store.go: Insert, Replace, Delete, Read, Next
--   Kv/Chunk       store/kv/chunk.go: Insert, Replace, Read and the iterator
--   Kv/Compression store/kv/compression.go: the same operations, over those of chunk.go
--   Kv/Listed      a transaction as a list of rows, for the tests
--   Schema/FieldType  schema/fields.go: the types of fields
--   Schema/Field   schema/fields.go: a field, with what its migration reads
--   Schema/Migration  schema/migration.go: buildSchemaDeltas, buildFieldVersions, lookupFieldVersion
--   Schema/Rules   schema/rules.go: FieldSchemaValidator, and Field.IsCompatible of schema/fields.go
--   Schema/Convert schema/migration.go: convertType and the conversions from each type
--   Schema/Update  schema/migration.go: applySchemaDelta, UpdateRowSchema, CompatibleSchemaSince
--   Metadata/Queue server/metadata/queue.go: Enqueue, Peek, Find, Dequeue and the leases
--   Metadata/Subspace  server/metadata/metadata.go: the rows of a subspace, over a transaction that is a
--                  parameter with its laws
--   Metadata/Entries   server/metadata/database.go, collection.go, primary_index.go: keys, metadata, lists
--   Metadata/Dictionary  server/metadata/dictionary.go: allocateToken, and the entries created, read,
--                  updated, dropped and listed
--   Metadata/Namespaces  server/metadata/dictionary.go: reservedSubspace and its maps
--   Metadata/Schemas   server/metadata/schema.go: the versions of the schema of a collection
--   Metadata/Versioning  server/metadata/database.go: UpdateSchemaVersion
--   Transaction/Session  server/transaction/manager.go: TxSession, over the interface of a store
--   Value          value/value.go, secondary_value_order.go, and collations (api/server/v1/collation.go)
--   Index          server/services/v1/database/secondary_indexer.go: rows, keys, Update
--   Index/Bulk     the same file: BuildCollection
--   Query/Filter   query/filter: selectors, $and and $or
--   Query/Match    query/filter/comparison.go and selector.go, value/eval.go: matchers on values
--   Query/Plan     query/filter/key_builder.go: QueryPlan and NewQueryPlan
--   Query/Strict   StrictEqKeyComposer.Compose
--   Query/Range    RangeKeyComposer.Compose and QueryPlanFromSort
--   Query/KeyBuilder  KeyBuilder.Build
-- Each has its proofs in modules below it. The modules named Tests have the theorems at concrete data,
-- and Metadata/Dictionary/Sample and Index/Sample what they run on.
--
-- State is passed explicitly: an operation takes the transaction and answers an error or none, and
-- the transaction after it. An iterator is what is left of the rows with the error that it met.
-- A call that returns a value or an error is a Result. A run-time panic is an error too. The message
-- of an error leaves out the arguments of its format. int32 is a number below 2 ^ 32, with the wrap
-- written out.
--
-- Fuel: the loop of executeChunks has as many rounds as the payload has bytes, and one more, as each
-- round starts at least one byte further. The queue of KeyBuilder.Build takes its fuel as an argument
-- and has no answer where it runs out; each filter of any level is in the queue once at most, so their
-- number is enough. BuildCollection has a round for each attempt of the store to commit, and no answer
-- where the attempts end. The search of UpdateRowSchema has as many rounds as there are deltas, and
-- each round leaves fewer of them.
--
-- Not modelled: the codecs of protobuf and bincode, Zstd and FoundationDB, which are parameters with
-- the laws that the theorems name, and floats, UUIDs, JSON and the texts of numbers and times, which
-- are parameters too. Range reads and atomic counters, the parser of filters, the matchers of texts,
-- the deletion and the size of an index, the tenants of the metadata, and the other services and the
-- server around them.
pub mod Base
pub mod Index
pub mod Kv
pub mod Metadata
pub mod Query
pub mod Schema
pub mod Transaction
pub mod Value

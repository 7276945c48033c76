-- ===== src/Lib.antt =====
-- A model of the frames library (Go): columns and frames of data, their message form, and the
-- layers that read and write them.
--
-- The parts and their files:
--   Base      numbers, integers, lists, maps and the outcome of a call: a value, an error, a panic
--   Value     interface{} values and pb.Value; Value/Json is the JSON form of a value, and the values of
--             requests and schemas by name (pb/methods.go)
--   Column    columns (column.go, colutils.go, the accessors of backends/utils/utils.go);
--             Column/Read has the readers, Column/Edit slices, constructors and appends
--   Frame     frames (frame.go); Frame/Rows is NewFrameFromRows
--   RowIter   the iterator over the rows of a frame (rowiter.go)
--   Marshal   messages on a byte stream (marshal.go)
--   Schema    the schema of a key/value table (v3ioutils/schema.go)
--   Cursor    the cursor over the items of a table (v3ioutils/asynciter.go)
--   Kv        the frames of the key/value reader (backends/kv/reader.go, utils.NewColumn)
--   Kv/Writer the appender of the key/value backend (backends/kv/writer.go)
--   Kv/Backend the backend's other operations: its containers, Exec with the inference of a schema,
--             Delete, and Read up to its iterator (backends/kv/backend.go, backends/kv/inferschema.go,
--             backends/kv/reader.go)
--   Container opening a container, arrays in blobs, and the deletion of a table
--             (v3ioutils/container.go)
--   Wait      the loops that wait for the container's responses (backends/kv/writer.go,
--             v3ioutils/container.go)
--   Csv       the frames of the CSV reader; Csv/Files has tables as files, and the appender;
--             Csv/Commands has Exec and the flush of a write (backends/csv/backend.go)
--   Tsdb      the time series backend: Tsdb/Calls, Tsdb/Writer, Tsdb/Reader, Tsdb/Tables, and
--             Tsdb/Adapters, which opens adapters, and containers for Stream (backends/tsdb,
--             backends/stream/backend.go)
--   Stream    the stream backend (backends/stream)
--   Http      the handlers of the HTTP server and the client's iterator; Http/Routes has the
--             routing and the other handlers, Http/Client the client's calls, Http/Json the JSON
--             form of a frame and the end of a client's write (http)
--   Grpc      the reads and writes of the gRPC server, and the client's side of them; Grpc/Client has
--             the client's calls and the unary calls (grpc)
--   Server    the state of a server, and how both servers start (server.go, http/server.go,
--             grpc/server.go)
--   Framesd   the server command: its configuration, both servers, and the watch over them
--             (cmd/framesd/framesd.go)
--   Config    configuration and sessions (config.go); Config/Printing prints a session
--             (pb/methods.go)
--   Backends  the registry of backend factories (backends/backends.go)
--   Sql       queries (sql.go)
--   Api       requests to the backends (api/api.go); Api/Setup builds them from a configuration
-- A backend makes frames out of columns: Csv and Kv call NewSliceColumn, Append and NewFrame as
-- Column and Frame define them. Api calls the backends through the interface Api.Backend, and fills
-- a read request from Sql; Api/Setup joins Config and Backends to it. Http/Routes sends a request to
-- Api, and Http/Client sends its calls to Http/Routes: Http/Calls and Http/Writes join the two sides
-- over a transport that carries paths and bodies. Frame calls the label codec of Value.
-- Container deletes what Cursor hands out and waits as Wait does; Kv/Backend calls it, and infers a
-- schema from the rows of Cursor by Frame/Rows and Schema. Framesd starts what Server and Api/Setup
-- define.
--
-- Conventions. A Go int or int64 is the integer that it stands for; overflow of a counter is not
-- modelled. A float64 is its bit pattern, with `==` as IEEE 754 has it. A time.Time is the
-- nanoseconds since the epoch. A method that changes its receiver returns the receiver that it
-- leaves. A map is the list of its entries in the order in which a range meets them, so what holds
-- for every list holds in every order. Go slices have value semantics: columns that share a backing
-- array are not modelled. Logging is left out.
--
-- Parameters. The formatters and parsers of strconv, strings, fmt and time, the JSON and protobuf
-- codecs, the SQL parser, the CSV reader's records, the responses of the container, the time series
-- library, the gRPC streams, and the backends behind Api. A component that only sends is known by
-- its answers, each of which may depend on what was accepted before.
--
-- Concurrency. The loop of Wait is a function on the sequence of events that its select receives, and
-- its theorems hold for each interleaving they name. The write handlers of Http and Grpc decode all
-- frames before the API takes them: a loop that ends early because the API has failed is left out.
--
-- Server is a step relation: a caller of Start and the goroutines that it leaves, in any order.
--
-- Fuel. extendCol runs with the number of rows that are missing, and each round adds one. All of the
-- cursor and the loop of DeleteTable run with one round more than there are items, a loop over the
-- rows of a frame with one more than there are rows, and the HTTP client with one more than there are
-- messages. The HTTP server's write runs with one more than the body has bytes, of which each frame
-- takes some; the stream appender takes its fuel from the caller. AsInt64Array runs with the length of
-- its blob, of which each round takes eight bytes. The loop of inferSchema has the source's bound of
-- 50 rows.
--
-- Not modelled: the queries of the time series library (Read of its backend), which are calls of that
-- library from end to end; the opening of a gRPC connection, which is one call of its library;
-- profiling; errors of the file system but those of a flush; flags and logging; the interfaces and
-- their documentation, which hold no code; generated and vendored code; the scripts of the build.
pub mod Base
pub mod Value
pub mod Column
pub mod Frame
pub mod Schema
pub mod Cursor
pub mod Marshal
pub mod Tsdb
pub mod Http
pub mod Stream
pub mod Grpc
pub mod Wait
pub mod RowIter
pub mod Kv
pub mod Csv
pub mod Config
pub mod Backends
pub mod Sql
pub mod Api
pub mod Server
pub mod Container
pub mod Framesd
mod Tests

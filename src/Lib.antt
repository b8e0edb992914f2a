-- ===== src/Lib.antt =====
-- Verification of roboplc-middle: the middleware between JSON-RPC clients and Modbus TCP devices.
--
-- The program is a set of workers that exchange messages over a hub. A request names a device and a
-- signal group; the Modbus worker of the device turns it into an operation on registers, runs it
-- on a pool of connections, and decodes the registers into fields. Modelled are the parts that
-- compute: the configuration and its validation, the conversion of values, the Modbus worker, the
-- framing of requests, and the workers around it: data streams, which poll signal groups into a
-- cache and broadcast them, server-sent events, which route these to subscribers, the HTTP handlers,
-- which read the cache and the states of the devices, the heartbeats and the configuration updates,
-- which write those states.
--
-- Files and what they model (paths from the repository's root):
--   Prelude        shared names: native numbers, lists, Boolean tests, integers with saturating
--                  casts, `Attempt` (an `Option` that may also panic), and two interfaces: `Float`
--                  for f64 and f32 arithmetic, `Json` for serde_json. Prelude/Sample has a value of
--                  each, so their laws can hold together.
--   Config         src/config.rs: the data types that the core reads (DataType, ByteOrder,
--                  FieldMapping, SignalGroup, Device, StreamConfig, Config). Config/Validate is
--                  `Config::validate`, `SignalGroup::validate`, `StreamConfig::validate`.
--                  Config/Settings has the settings with their defaults, and `streams_differ`.
--   Conversion     src/data_conversion.rs: `bytes_len`, `convert_byte_order`, `from_bytes`,
--                  `to_bytes`; Conversion/Registers is `RegisterPair`.
--   Modbus/Address src/workers/modbus/operations.rs: register types and `parse_register_address`.
--   Modbus/Parsing src/workers/modbus/parsing.rs: fields to registers and back.
--   Modbus/Backoff, Modbus/Timeout, Modbus/Queue
--                  src/workers/modbus/types.rs: `Backoff`, `TimeoutHandler`, `OperationQueue`.
--                  Queue/Threads splits its loops into atomic instructions that threads interleave.
--   Modbus/Io      the interface of the roboplc Modbus library; Modbus/Sample is a value of it.
--   Modbus/Client  src/workers/modbus/client.rs: the operations on a connection;
--                  Client/Retry is `ModbusClient`.
--   Modbus/Pool    src/workers/modbus/client.rs: `ModbusConnectionPool`.
--   Modbus/State   src/workers/modbus/state.rs: `ModbusWorkerState`, with ConnectionState of types.rs
--                  and DeviceEvent of src/lib.rs.
--   Modbus/Handler src/workers/modbus/handler.rs: the translation of requests;
--                  Handler/Control is `handle_device_control` and the task that it spawns.
--   Modbus/Worker  src/workers/modbus/worker.rs: the messages of a worker one at a time;
--                  Worker/Concurrent takes messages while the tasks of earlier requests run, which
--                  end in any order.
--   Rpc/Framing    src/workers/rpc/connection.rs: the loop of `handle_connection` that reads a request.
--   Rpc/Handler    src/workers/rpc/handler.rs and types.rs: the methods. Rpc/Handler/Calls joins them
--                  with the Modbus worker by a hub that hands it each message at once.
--   Correlation    src/correlation.rs: `next_correlation_id`.
--   Messages       src/messages.rs: `Message`, `DeviceResponseData`.
--   Hub            src/hub_protection.rs: `submit`, `send_to_hub_with_protection`, over an interface
--                  `Hub` of the send pool, the channels and the clock; Hub/Sample is a value of it.
--                  Hub/Threads is the send pool, with events of its callers and threads.
--   Shared         src/lib.rs: `DataCache`, `DeviceStatus`.
--   Streams        src/workers/data_stream_worker.rs: grouping and polls; Streams/Schedule is the
--                  loop of `run`. Http/Cached joins it with the HTTP handler of the cache.
--   Sse            src/workers/sse_worker.rs: the registry and the worker, over an interface
--                  `Channels` of the tokio channels; Sse/Sample is a value of it.
--   Http           src/workers/http_worker.rs: the handlers, as what each answers.
--   Heartbeat      src/workers/heartbeat_worker.rs: the pings, the updates and the loop of `run`.
--   Latency        src/workers/latency_monitor.rs: the window of samples and its statistics.
--   Devices        src/workers/manager.rs and src/workers/config_updater.rs: which devices have a
--                  status.
--   Reload         src/workers/config_loader.rs: the paths at which two JSON values differ;
--                  Reload/Loader is the reload and what an event of the file leads to. `diff_paths`
--                  takes the depth of the old value as its bound, as does `equal`, which
--                  `collect_diff_paths-Same` shows to be enough.
--   Prelude/Maps   hash maps as association lists; a walk goes through the list, and no theorem
--                  depends on where an insertion puts a new key.
--
-- Numbers: native naturals, with the source's width written out where it wraps (u8, u16, u32, u64
-- and usize of 64 bits, as in a release build); signed integers are the library's shape over native
-- naturals. Text that the program walks is a list of code points. A value that may panic is an
-- `Attempt`, or a result with a constructor `panicked`. The loops of the source are structural
-- recursion; the two compare-and-exchange loops have the source's own bound of 100 attempts. The only
-- bounds chosen here are those of `diff_paths` and `equal`. `Duration`s are numbers of
-- milliseconds, those of the pool of microseconds.
--
-- State: a function that mutates returns the new record. What others do to an atomic counter
-- between two accesses is a parameter (`World`), and Queue/Threads has it as a schedule. The
-- network, its devices and the clock are one state, which only the calls of `Io` change. A request
-- is run to the end of its task, with no other request in between, but in Worker/Concurrent.
--
-- The other workers see the hub, the channels, the clock and each other through the interface `Hub`,
-- whose state moves only when they send or wait; an `Instant` never goes back. The events that a
-- worker pushes to the shared buffer are a part of its result.
--
-- Not modelled: the watcher of the configuration file, the servers and runtimes, the deprecated table
-- of pending RPC requests, logging, and the reading of files. The parser of
-- JSON text is a parameter. Numbers of f64 are abstract: the laws of `Float` are those of conversion
-- from and to integers and bits.
pub mod Prelude
pub mod Config
pub mod Conversion
pub mod Modbus
pub mod Reload
pub mod Rpc
pub mod Correlation
pub mod Messages
pub mod Hub
pub mod Shared
pub mod Sse
pub mod Streams
pub mod Http
pub mod Heartbeat
pub mod Devices
pub mod Latency

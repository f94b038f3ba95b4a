-- ===== src/Lib.antt =====
-- mqant, a Go framework for game servers: its MQTT gate, the service
-- registry, the selectors and the timer.
--
-- The program. A device speaks MQTT to the gate. Each connection has a `Client`
-- (gate/base/mqtt/mqtt_client_server.go) over a `PackQueue` (pack_queue.go), whose reading loop
-- decodes packets with `ReadPack` (mqtt.go), answers them through `waitPack` and hands some to a
-- receiver above; writers encode with `DelayWritePack` under the lock of the queue, and a flusher
-- sends what waits. Modules find each other by a registry of services (registry/), through a
-- selector (selector/) that filters the services, keeps them in a cache, and picks a node. The timer
-- module runs delayed jobs on a time wheel. Above the packets, an agent of the gate routes the messages
-- of a device to modules by RPC; each module gets a copy of the device's session and changes the
-- session through the handler of the gate that owns it. The module manager starts and ends the
-- modules of a process.
--
-- The files.
--   Prelude: tests on numbers, byte lists, texts and maps, bits, and a state with errors and panics.
--   Mqtt/MsgType, Mqtt/Pack: the constants and the packets of mqtt.go.
--   Mqtt/Input, Mqtt/Read: `bufio.Reader` as the bytes that are left, `readString`, `readInt`,
--     `ReadPack` (`read_pack`), one function for each case of its switch. Mqtt/Read/Safe and
--     Mqtt/Read/Cases: rules for calls that do not panic, and their use.
--   Mqtt/Output, Mqtt/Write: `bufio.Writer`, `writeFull`, `getRemainingLength`, `DelayWritePack`
--     (`delay_write_pack`). Mqtt/RoundTrip and its children: the decoder against the encoder.
--   Mqtt/Reply: the constructors `GetConnAckPack` and so on.
--   Mqtt/Queue: `PackQueue`; Mqtt/Queue/Writing: `WritePack`; Mqtt/Queue/Steps: its calls in any order.
--   Mqtt/Client: `Client`; Mqtt/Client/Ids, Answers and Reading: its message ids, its answers, and
--     its reading loop.
--   Gate/Session: gate/base/session.go, the session and its local methods (`SessionAgent`);
--     Gate/Remote: its methods that ask the gate. Gate/Handler: gate_handler.go (`Handler`).
--     Gate/Transport: mqtt_gate.go, how a session travels, and the functions that the gate registers.
--     Gate/Agent: mqtt_agent.go (`GateAgent`). Gate/UriRoute: gate/uriroute/uri_route.go. Their
--     children, and Gate/Counting, hold the proofs.
--   Rpc/Args: rpc/util/argsutil.go; Rpc/Server: rpc/base/rpc_server.go; Rpc/Client:
--     rpc/base/rpc_client.go, and in Rpc/Client/Calls the two ends together; Rpc/Reply: rpc/reply.go;
--     Rpc/Nats: rpc/base/nats_client.go, the calls that wait for an answer. Rpc/Server/Quiet is the run of a
--     request while no hook panics, Rpc/Server/Always the run with any hooks.
--   Module/Manager: module/base/module_manager.go and module_agent.go.
--   Registry: registry/service.go; Registry/Mock: registry/mock, the registry in memory, with
--     Registry/Mock/Instances; Registry/Latest: registry/latest.go;
--     Registry/Watcher: registry/consul_watcher.go, the events of a service.
--   Selector/Filter, Selector/Strategy, Selector/Cache, Selector/Select: the files of selector/ and
--     selector/cache/.
--   Timer: module/modules/timer/timingwheel.go; Timer/Schedule and Timer/Adding: the wheel as a schedule
--     of tasks by ticks.
--   Utils/Base62, Utils/ParamsBytes: utils/base62.go and utils/params_bytes.go.
--   Gate/Tests, Gate/UriRoute/Tests, Rpc/Nats/Tests, Module/Manager/Tests, Mqtt/Tests, Registry/Tests,
--     Registry/Watcher/Tests, Rpc/Tests, Selector/Tests, Timer/Tests, Utils/Tests: runs at concrete inputs.
--
-- The model. A byte or a Go `int` is a native number; where the code takes bytes of it the remainder
-- is written out, and an `int` that may be negative is kept as the two numbers whose difference it
-- is. A type assertion that fails, a nil pointer and an index out of range are `panic`. A text is its
-- bytes. A connection is the bytes that it still holds, and ends after them; whether it takes a write
-- is the field `broken` of a writer. Calls on a queue are atomic steps; a call that waits for a lock
-- or for room in a channel stops with `blocked`. Slices of pointers are lists of values: what a caller
-- does to a slice that it was given is not followed. A map that the code ranges over is the list of its
-- pairs in the order of one such range (`Dict`). A session that is shared by reference inside the gate
-- is written back to the table of agents where it changes. protobuf, JSON, NATS, reflection, the
-- storage and the hooks of an application are parameters; what is relied on in them stands among the
-- hypotheses (`IsCarried`, `IsSendable`, `Passes`, `IsServed`, `IsReturning`). RPC requests and the
-- workers of an agent run one after another. The hooks that hear of an answer of RPC are an argument
-- that says which of their calls panic, and how far the flusher of a queue gets before each packet is
-- an argument too, as are the clock and the answers of a registry.
--
-- Fuel. `read_topics` runs on one more than the length of the packet, of which each topic takes three
-- bytes or more; `read_pack_in_loop` on one more than the bytes of the connection, of which each
-- packet takes one or more. `remaining_loop` has the bound of four
-- rounds that a length below 128 ^ 4 needs; beyond it the array of the code is too short.
-- `digits_loop` has 11 rounds, since 62 ^ 11 is above 2 ^ 63.
--
-- Not modelled: deadlines of a connection, the goroutines as such, the listeners of the gate and the
-- handshake of an agent, the NATS connection, BaseModule, the consul and etcd clients,
-- logging, configuration and start-up.
pub mod Prelude
pub mod Gate
pub mod Module
pub mod Mqtt
pub mod Registry
pub mod Rpc
pub mod Selector
pub mod Timer
pub mod Utils

-- ===== src/Lib.antt =====
-- Verification of cpp-esphome-api, a C++17 client library for the ESPHome native API.
--
-- The library talks to a device over one byte stream. A frame codec cuts the stream into messages
-- and encodes outgoing ones; the connection drives the session over it: connect, hello, keepalive,
-- dispatch, disconnect. Messages are proto3. Over an encrypted link the codec runs a Noise handshake.
--
-- Base       numbers, tests, lists and bit operations that all parts share
-- Errors     include/esphome/api/exception.hpp: exceptions as values
-- Bytes      include/esphome/api/bytes.hpp, src/bytes.cpp: varints of bounded length
-- Frame      include/esphome/api/frame/frame_helper.hpp: the interface of a codec, as a record of
--            operations and laws
-- Plaintext  src/frame/plaintext_frame_helper.cpp: the plaintext codec and its reassembly buffer;
--            Plaintext.Helper is its instance of the interface
-- Connection src/connection/connection.cpp: State holds the members, Actions the private helpers,
--            Inbound handle_frame and handle_internal, Steps the entry points and `run`, the
--            interleaving of any sequence of them; Rules, Moves and Entries carry a relation that
--            the small changes keep to every entry point; Lifecycle and Keepalive are about the states
--            and the timers of any run; Delivery follows a device's bytes, over either
--            codec, to the messages that the handler of on_any is called with, and over the
--            plaintext codec from start on (Opening, Welcome, Connects)
-- Wire       include/esphome/api/proto/wire.hpp: zigzag, sizes, ProtoWriter and ProtoReader
-- Noise      src/crypto/: primitives over the vendored cryptography, CipherState, SymmetricState
--            and NoiseHandshake
-- NoiseFrame src/frame/noise_frame_helper.cpp: the encrypted codec; NoiseFrame.Helper is its
--            instance of the interface, Opening runs it from connect_bytes to the transport state
--            against a device, Session runs two ends against each other
-- EntityType src/model/entity_type.cpp: the entity domains and their names
-- Entities   src/model/entities and include/esphome/api/model/entities, a module per domain: the
--            structs, the parsers, the requests; Common is src/model/entity_common.hpp, Classes
--            and Commands are families over the domain
-- EntityStore src/model/entity_store.cpp: ingest, the queries and the typed accessors; Latest and
--            Domains hold its runs against registers and against domains
-- Discovery  src/discovery.cpp: names, records and devices of mDNS packets
-- SerialProxy src/subsystems/serial_proxy.cpp: the UART proxies, their handlers and requests
-- DeviceInfo src/model/device_info.cpp: what a device says of itself
-- Client     src/client.cpp: the connection, the store that it feeds, the handlers and the device's
--            description; Knows and Session are about any run, Delivery about the bytes of a device
-- Glob       bin/commands/glob.cpp: the wildcard patterns of the command line, against what they mean
--
-- A byte buffer is the list of its bytes; a read outside it is `none`, and a reader of proto3 counts the
-- bytes by which its pointer passes the end. A machine integer is a natural number with its wrap-around
-- written out; the signed numbers of zigzag have a type of their own. An exception is a value. A
-- call of a handler, of the transport or of the executor is an event of the connection's log or an
-- entry of its list of timers; handlers only observe, and one that calls back is a later step.
--
-- `next` of a codec is a loop of rounds, so that a codec may call back between them; the connection's
-- drain loop runs on fuel, one more than the bytes that wait, which the laws of the codec make
-- enough. Varint loops recurse on the value or on the input and need no fuel. The loop
-- over a name of an mDNS packet and the loop over a wildcard pattern have a fuel that is shown to be
-- enough, a bounded number of rounds through the packet or the text.
--
-- The handler that a client gives to its connection touches nothing of the connection: its calls are
-- taken after the input that brought the messages. The classes that it casts a message to are
-- parameters.
--
-- A message class of the entities is a record with the fields of proto/api.proto, from which the
-- build generates it. A text is its bytes, a float or another number its bits, and an enum class
-- the number that it holds. The store's unordered map is a list of entries in any order, and its
-- callback an answer of ingest; a static_cast to a class that the message does not have is an
-- answer of its own.
--
-- Outside the model: the other generated messages and the registry, the transport, the executor
-- and the vendored cryptography are parameters; a codec whose encode throws, and a message that
-- fails to serialize, and a start with an empty callback, are not covered; the synchronous client, the entity handles, the sockets of the
-- discovery, the other subsystems, the protocol generator and the rest of the command line are not
-- modelled.
pub mod Base
pub mod Errors
pub mod Bytes
pub mod Frame
pub mod Glob
pub mod Plaintext
pub mod Connection
pub mod Discovery
pub mod SerialProxy
pub mod DeviceInfo
pub mod Client
pub mod Wire
pub mod Noise
pub mod NoiseFrame
pub mod EntityType
pub mod Entities
pub mod EntityStore

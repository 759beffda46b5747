-- ===== src/Lib.antt =====
-- A model of zen-core and of the Switchboard, with the theorems about them.
--
-- The program. Zen moves self-describing values between components, and no value reaches a
-- component before one validator, the gate, has judged it. A value claims a schema and has a slot
-- for each of the schema's fields. A registry holds the published schemas. The native binary format
-- writes a value as a header with the claimed schema's name, version and content id, and a body
-- that only the schema can read; bytes come back as an unverified claim that the gate decodes and
-- judges under a door. A second format writes the same as JSON, with base64 for bytes. The
-- Switchboard is the bus: it queues messages to shards, and delivers each one that routing, the
-- sender's grant and the gate let through; it also kills shards and revives them from serialized
-- state.
--
-- Files, with the code they model (paths from the repository's root):
--   Prelude       names and lemmas that all modules share: lists, tests, bits, integers
--   Failure       C++ exceptions as values, std::to_string
--   Binary        src/detail/binary.cpp and binary.hpp: put_u8 .. put_zigzag, BinReader
--   Hash          src/detail/hash.hpp: Fnv1a
--   Schema        include/zen/kind.hpp, include/zen/schema.hpp, src/schema.cpp
--   Value         include/zen/value.hpp, src/value.cpp: Cell, Value, construct_blind
--   Gate          include/zen/admission.hpp, include/zen/gate.hpp, src/gate.cpp: admit, diagnose
--   Registry      include/zen/registry.hpp, src/registry.cpp
--   Utf8          src/detail/json.cpp: valid_utf8
--   Base64        src/detail/base64.cpp
--   Json          src/detail/json.cpp: parse_json, json_quote; Text has strings and escapes, Number
--                 tokens and literals, Parse values, objects and arrays
--   Serialize     src/serialize.cpp: serialize, parse, BinaryDecoder, admit for bytes; Wire lays out
--                 what the encoder appends, which Written and RoundTrip relate to both directions
--   Compat        src/serialize.cpp: the JSON format, JsonDecoder, compat::serialize, compat::parse
--   Grant         include/zen/switchboard/grant.hpp
--   Switchboard   include/zen/switchboard/ and src/switchboard/switchboard.cpp; State has the bus
--                 and sending, Deliver the deliveries, Lifecycle registration, death and revival,
--                 Reachable the calls on a bus in any order, Thrown handlers that throw
--   Kernel        include/zen/kernel/schema_codec.hpp: schemas as values; src/kernel/kernel.cpp: the
--                 gate on the boundary to loaded libraries (Host)
--   Examples      the theorems applied to concrete values
--
-- State. A C++ object is a record, a map a list in the order of its keys, a deque and a vector a
-- list. An operation takes the state and returns the next one. The validator's counter of runs is
-- passed along as a number. A `std::string` is the list of its bytes, a double its bit pattern, an
-- `std::int64_t` an integer; unsigned arithmetic has its wrap-around written out. The exceptions are
-- counters that go up by one, for sequence numbers, ids, revivals and runs of the gate: they have
-- no bound in the model and 2 ^ 64 in the program.
--
-- Parameters. Shards are not part of the program: their methods are a record of functions over a
-- type of shard objects, and a handler is a tree of the calls it makes on its bus: it sends,
-- publishes, resolves schemas, runs the gate and asks for a stop, as the kernel's adapter for
-- loaded libraries does through its host. These calls are all it does to the bus, and it returns; a
-- handler that throws is a step of its own (Thrown, Reachable). A shard's snapshot and policy may
-- throw and run the gate, and `revive` may throw, as the adapter's do; an observer is known only by
-- what it is told. The JSON format prints and reads doubles by std::to_chars and std::from_chars,
-- which are functions on bit patterns and text.
--
-- Bounds and fuel. The reader of varints needs no fuel, since each round reads an octet, and the
-- writer recurs on the number it shifts down. The decoder recurs on the schema, whose nesting is
-- finite, and checks the depth limit of 64 as the code does. Lists of elements recur on the count that
-- was read, which the code bounds by 2 ^ 20. The JSON parser's loops have as fuel the length of what
-- is left and one more, since each round reads a character, and its nesting has the limit and one
-- more, since a deeper level is refused first. `pump` has fuel, the number of deliveries, and returns
-- none without enough: a handler that always sends keeps the program's own loop running for ever.
--
-- Exceptions. An operation that throws has the exception as its result. What it changed before is
-- not part of that result; the calls that reachability is made of have what a registration, a
-- revival or a handler can leave behind when it throws.
--
-- Not modelled: locks and atomics, since registration is one step; the loader of libraries and the
-- kernel's table of them; isolation by processes, namespaces and cgroups; the author layer of
-- templates.
pub mod Prelude
pub mod Binary
pub mod Failure
pub mod Hash
pub mod Schema
pub mod Value
pub mod Gate
pub mod Registry
pub mod Utf8
pub mod Base64
pub mod Json
pub mod Compat
pub mod Kernel
pub mod Serialize
pub mod Grant
pub mod Switchboard
pub mod Examples

-- ===== src/Lib.antt =====
-- Verification of the ebc_node peer-to-peer node.
--
-- The program is a node that finds other nodes through a server and punches holes towards them.
-- Its parts, and how they interact:
--
-- * Messages (src/msg.pb.cc, include/msg.pb.h, from tool/msg.proto). EbcNode describes a node,
--   EbcNodes is a list of them, and EbcMsg is the envelope, whose body is a text or nodes.
--   Proto/Node, Proto/Nodes and Proto/Msg have the fields as records (bytes and strings are lists
--   of bytes, the body is a sum) and `Clear`, `MergeFrom`, `CopyFrom`, the copy constructor,
--   `InternalSwap`, `ByteSizeLong`, `SerializeWithCachedSizes` and `MergePartialFromCodedStream`
--   under the same names in lower case. Proto/Fields and Proto/Loop have what they share. Proto/Union
--   has the union of the body as it lies in memory, a pointer with its discriminant, and the functions
--   of the generated code that ask for its case, read, set, clear, release and hand it over.
-- * The protobuf runtime is not in the repository: the calls of it are the record `Wire` in Wire,
--   an argument of all these definitions, and what is relied on is the record `WireLaws` in
--   Wire/Laws. Tests/SimpleWire is a wire with these laws.
-- * The packer (src/msgpack.cpp, include/msgpack.h) is MsgPack: `pack` fills in an EbcMsg and
--   writes it to a buffer, `unpack` parses a buffer and checks head, type and length. `void *`
--   arguments are the sum `Payload`; a buffer is a list of bytes.
-- * Addresses (include/sockaddr.h) are SockAddr: a length and an owned block of bytes. SockAddr/Uses
--   has sequences of the operations of the class. SockAddr/IpCmp has the order `ipCmp`, and SockAddr/Names what src/utils.cpp does with `getaddrinfo` and
--   `getnameinfo`, which are parameters.
-- * Nodes (src/node.cpp, include/node.h) are Node: the record, its getters, setters and conversions
--   of ids. Node/Print, MsgPack/Print (`msgPrint`) and Engine/Print (`printNodesInfo`) have what is
--   printed, as a list of the operands of `std::cout <<` (Console).
-- * The macros of include/utils.h are Utils.
-- * The engine (src/netengine.cpp, include/netengine.h) is Engine: the tables of clients and peers
--   and the index from sockets to ids, as association lists in the order of the keys
--   (Base/StdMap), with the operations on them. Engine/World has the calls of UDT, whose answers
--   are a record of functions of all calls made so far. On this stand Engine/Punch (`setUdtOpt`,
--   `startPunch`), Engine/Message (`handleMsg`), Engine/Client (`startClient`, its thread,
--   `sendHello`, the destructor) and Engine/Server (`startServer`, its thread). Client/Thread and
--   Server/Thread have the loops of the threads over a number of rounds. Engine/System puts the calls
--   of the user and the work of the threads together, as a step relation in any order; Engine/System/Clients
--   and Engine/System/Serves follow the table of clients along it, and Engine/System/Meeting puts three
--   engines together: what one sends on a socket (Engine/Message/Delivery) is what another receives.
--   Engine/Kept lists what has to keep a property of the engine and of its calls for every thread to
--   keep it; Engine/System/Closings is such a property, about the sockets that are closed.
--   Engine/Message/Echo follows a request to a node that is no server; Engine/Message/Survives defines
--   the messages that are harmless to such a node, Engine/Message/Exact compares them with what
--   `handleMsg` does, and Engine/Client/Lasting runs its thread on them. Engine/Message/Nodeless is
--   about messages that list no node, and Engine/Message/Meets about what `startPunch` and
--   `addPeerNode` make of the nodes that are listed.
-- * The program (src/main.cpp) is Main: the start of the engine and the loop over the commands, with
--   what `getchar` returns and the random bytes of the id as parameters.
-- * include/bucket.h, which nothing uses, is Bucket.
--
-- Undefined behaviour of the program (reading behind a buffer, an element of an empty list, a
-- member that was never set) is `none` in SockAddr, Node, MsgPack.pack and the engine. A parse is
-- `ok`, `failed` (the program's false or -1), or `stuck`, where a loop of the model has no fuel
-- left: the loops of the parser have one round more than the input has bytes, and a round takes one
-- byte at least.
--
-- A thread's loop and the command loop may go on for ever: they are run for a number of rounds, and
-- the result says whether they have ended by then.
--
-- `pack` returns an `int`; the model has the size itself, a natural number, which that `int` holds for a
-- message of less than 2 GB. A larger one, at which the callers may see a negative value and leave, is
-- outside the model, which has no such test. A socket that UDT did not give is INVALID_SOCK, the bits of -1, where the program goes
-- on with it (`startServer`, and `boot_sock` after a `startClient` that failed).
--
-- Numbers are natural numbers; a uint32 or uint16 that may wrap has its remainder written out, and
-- memory has the layout of a little-endian machine with Linux structures. A step of Engine/System is
-- one call of the user, what a thread does for one socket, or one round of greetings: finer
-- interleavings, which are data races on the unguarded tables, are not modelled.
--
-- Not modelled: UDT and protobuf themselves, and the crypto library, which are not part of the
-- repository but for their headers; arenas and default instances of the generated code, and its
-- release_* and set_allocated_* of plain string fields; the epoll descriptor, the time-outs and the
-- sleep of a thread; the messages that the engine prints when a call fails, and the printing at the end
-- of `unpack` (`msgPrint` is modelled by itself).
pub mod Base
pub mod Bucket
pub mod Console
pub mod Main
pub mod Utils
pub mod Wire
pub mod Proto
pub mod MsgPack
pub mod SockAddr
pub mod Node
pub mod Engine
pub mod Tests

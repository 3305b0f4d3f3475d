-- ===== src/Lib.antt =====
-- netprobe: the packet analysis of src/core, the capture of src/capture, the command line of src/cli and
-- the state behind the user interface of src/ui. A captured frame (`PacketData`) goes through the
-- bounded `PacketQueue` from the capture thread to its consumer. `ProtocolParser::parse` makes a
-- `ParsedPacket` of it: link layer, network layer with nested tunnels, transport, then the payload
-- (TLS ClientHello, HTTP, QUIC Initial) and a label of the service. `FlowAggregator::update` counts
-- the packet in the flow of its conversation.
--
-- Base: the native numbers, lists, integers and texts that the parts share, and Base/Run, the
--   results of code that reads memory: `done` with a value, `fault` for an access outside of a
--   buffer, `stuck` for fuel that ran out. `Ensures P m` says that `m` is done with a value in P.
--   `std::string` and byte buffers are lists of codes (`Bytes`).
-- LinkType: src/core/LinkType.hpp. Packet: PacketData.hpp and ParsedPacket.hpp.
-- PacketQueue: src/core/PacketQueue.hpp (`push`, `try_pop`, `size`, `empty`, `clear`); every operation
--   holds the mutex for its whole body, so a history is a list of calls. Order: its contract.
-- Protocol: src/core/ProtocolParser.cpp. Link (`decodeLinkLayer`, `walkV6Extension`), Tunnels
--   (`decodeGre`, `decodeVxlan`, `decodeGeneve`, `decodeMpls`, `decodePppoe`), Transport (`decodeTcp`,
--   `decodeUdp`, ICMP, `decodeTransport`), Network (`decodeNetwork`), Tls (`parseTlsClientHello`), Http
--   (`parseHTTP`), Service (`classifyTcpPort`, `classifyUdpPort`, `identifyService`; the table of names
--   in Catalog), Parse (`parse`). Out parameters and the packet that the C++ updates in place are
--   results here. The child module Bounds of each proves what it reads.
-- Quic: src/core/QuicParser.cpp. Frames (`readVarint`, `collectCryptoFrames`), Hello
--   (`sniFromClientHello`), Keys (versions, HKDF labels, nonce), Initial (`parseInitial`,
--   `extractInitialSni`).
-- TlsReassembler: src/core/TlsReassembler.cpp (`feed`, `clear`), which holds the segments of a ClientHello
--   until its record is complete and has Protocol/Tls parse it.
-- Flow: src/core/FlowAggregator.cpp and .hpp. Key (`keyFor`, `matches`, `isDownstream`), Sequence (one
--   direction of a TCP stream), State (`update` on one flow), and the table in Flow itself (`update`,
--   `setHostnameForAddress`, `snapshot`, `clear`).
-- QuicTracker: src/core/QuicTracker.cpp (`feed`, `clear`), the same for QUIC Initial packets.
-- Dns: src/core/DNSParser.cpp. Name (`readName`), Records (the data of each type), Message
--   (`parseMessage`, `parseResponse`), Reverse (`reverseNameToAddress`).
-- HostnameCache: src/core/HostnameCache.hpp.
-- AnalysisSession: src/core/AnalysisSession.cpp, which composes all of these: `feed` parses a packet,
--   recovers a name by the trackers, learns from DNS answers and updates the flows.
-- CaptureEngine: the packets that `replayFile` of src/capture/CaptureEngine.cpp hands out. Backend:
--   src/capture/LibpcapBackend.cpp (`open`, `openFile`, `setFilter`, `nextPacket`, `close`). Session: the
--   operations of the engine on its state, those that stop the thread in two parts, before and behind `join`.
--   Threads: the capture thread, the callers and the consumer as a step relation. Export: `exportSession`.
--   Loaded: `openFile`.
-- ProcessResolver: src/core/ProcessResolver.cpp on Linux (`refreshTables`, `lookup` and what they use); ProcNet
--   reads the tables of /proc/net; Owner: the owner of an endpoint.
-- GeoIpResolver: src/core/GeoIPResolver.cpp, `lookup` with its cache of the last answers, a list with an
--   index; Cached: the cache against the databases.
-- Ui: src/ui. ScrollingBuffer (GuiLayer.hpp, and `linearizeBuffer` of GuiLayer.cpp), View (the members of
--   `GuiLayer` that hold packets), Live (`processQueue`, `setPaused` and `clearCaptureView` on them), Dashboard (the
--   three as a whole, with the charts), PacketTable (the display filter
--   and the rows of PacketView.cpp) and FlowTable (`sortFlowsCache` of FlowsView.cpp).
-- Cli: src/cli/main.cpp. Options (`Options`, `validate`, `resolveFormat`), Arguments (`parseArguments`),
--   Live (`runLive`, `runOffline`), and `run` in Cli itself. What the system answers is the record
--   `System`; the loop of a live capture is on a list of rounds, each with the stop flag, the clock and
--   the arrivals, and is stuck where the list runs out before it has ended.
-- FlowExporter: src/core/FlowExporter.cpp. `csvEscape`, Json (`appendJsonString`), Rows (`writeCsv`) and
--   Document (`writeJson`); Csv and the Readers are readers of what it writes, Json/Utf8 the sequences of
--   RFC 3629.
-- Tests: the theorems at concrete inputs.
--
-- Base/Table is the association list that stands for the hash maps of the trackers.
-- Fuel: the loops that advance through a buffer have one unit for each byte of it (or each 8 bytes of
--   an IPv6 extension header), and the name reader of DNS the square of the message's size; tunnels nest to depth 4
--   and are cut off at depth 5, for which `parse` gives fuel 6.
-- Parameters: `inet_ntop` (the record `Inet`) and the functions of Mbed TLS (the record
--   `CryptoLibrary`); of the latter it is used that an AES block has 16 bytes (`BlockSized`); what libpcap
--   opens and compiles (`Pcap`), what its reads return (`PcapNext`) and what it reads back of an exported
--   file (`read_back`); what the GeoLite databases hold
--   (`Database`); what /proc and the interfaces hold (`Files`); the quotient of two `double`s in the order of the flow table.
-- Numbers: addresses and lengths are natural numbers, of which `size_t` is wide enough; the counters
--   of flows wrap at 2 ^ 64 and sequence numbers at 2 ^ 32. Timestamps are integers without bound.
--   The hash of a flow key decides only the order of iteration and is left out; the rate of a
--   snapshot is the number of bytes that is converted to `double`.
-- Not modelled: ResourcePaths, which searches the file system; ProcessResolver on Windows and macOS; the
--   search for the GeoLite databases; the listing of adapters; the drawing of src/ui, its dialogs
--   and the refresh of its cached flows; the text of a `double`, which `snprintf` writes.
pub mod Base
pub mod LinkType
pub mod Packet
pub mod Protocol
pub mod Quic
pub mod PacketQueue
pub mod Flow
pub mod TlsReassembler
pub mod QuicTracker
pub mod Dns
pub mod HostnameCache
pub mod AnalysisSession
pub mod ProcessResolver
pub mod GeoIpResolver
pub mod FlowExporter
pub mod CaptureEngine
pub mod Cli
pub mod Ui
pub mod Tests

-- ===== src/TlsReassembler.antt =====
-- src/core/TlsReassembler.hpp and TlsReassembler.cpp: a ClientHello that is spread over several
-- TCP segments. A null payload is the empty one.
pub mod Bounds
pub mod Joined
use netprobe_cpp.Base.{
  ℕ, ◌+◌, ◌*◌, ◌%◌, ◌^◌, Bool, Option, none, some, ◌&&◌, ◌||◌, not, ltb, leb, ◌==◌, if◌then◌else◌,
  List, [], ◌∷◌, ◌++◌, length, Bytes, codes, text_eq, is_empty, ℤ, pos, ltb_ℤ, ◌-ℤ◌, Outcome, done,
  ◌>>=◌, read_u16, find_entry, put_entry, erase_entry, erase_where,
}
use netprobe_cpp.Packet.{ParsedPacket}
use netprobe_cpp.Protocol.Tls.{looks_like_tls_handshake, parse_tls_client_hello}

pub record StreamKey : Type 0 where
  pub src_ip : Bytes
  pub dst_ip : Bytes
  pub src_port : ℕ
  pub dst_port : ℕ

unfoldable pub stream_key_eq : StreamKey → StreamKey → Bool
stream_key_eq a b =
    text_eq a.src_ip b.src_ip
    && text_eq a.dst_ip b.dst_ip
    && (a.src_port == b.src_port)
    && (a.dst_port == b.dst_port)

pub record Stream : Type 0 where
  pub buffer : Bytes
  pub next_seq : ℕ
  pub needed : ℕ
  pub last_seen : ℤ

abbrev pub Streams : Type 0
Streams = List (StreamKey × Stream)

abbrev pub max_tracked_streams : ℕ
max_tracked_streams = 2048

abbrev pub max_buffered_bytes : ℕ
max_buffered_bytes = 64 * 1024

abbrev pub stream_timeout_microseconds : ℕ
stream_timeout_microseconds = 30_000_000

pub is_stale : ℤ → Stream → Bool
is_stale now s = ltb_ℤ (pos stream_timeout_microseconds) (now -ℤ s.last_seen)

pub expire_stale : ℤ → Streams → Streams
expire_stale now streams = erase_where (is_stale now) streams

-- `tcpSeq` plus a length, on `uint32_t`.
pub advance_seq : ℕ → ℕ → ℕ
advance_seq seq count = (seq + count % 2 ^ 32) % 2 ^ 32

-- A new stream, where there is room for one.
pub add_stream : StreamKey → Stream → Streams → Streams
add_stream key stream streams =
    if ltb (length streams) max_tracked_streams then (key, stream) ∷ streams else streams

pub make_room : ℤ → Streams → Streams
make_room now streams =
    if leb max_tracked_streams (length streams) then expire_stale now streams else streams

-- The segment that opens a handshake, when the record it opens is cut short.
pub start_stream : StreamKey → ParsedPacket → Bytes → Streams → Outcome (Streams × Option Bytes)
start_stream key p payload streams = do
  is_tls ← looks_like_tls_handshake payload
  if not is_tls then done (streams, none) else (do
    record_length ← read_u16 payload 3
    let needed = 5 + record_length
    if leb needed (length payload) || ltb max_buffered_bytes needed
        then done (streams, none)
        else done (
          add_stream key
              (record {
                buffer = payload;
                next_seq = advance_seq p.tcp_seq (length payload);
                needed = needed;
                last_seen = p.timestamp;
              })
              (make_room p.timestamp streams),
          none,
        ))

-- What `feed` returns of a parsed ClientHello.
pub found_name : Option Bytes → Option Bytes
found_name none = none
found_name (some sni) = if is_empty sni then none else some sni

-- A segment of a stream that is tracked.
pub continue_stream :
    StreamKey → ParsedPacket → Bytes → Stream → Streams → Outcome (Streams × Option Bytes)
continue_stream key p payload stream streams =
    let seen = record stream { last_seen = p.timestamp } in
    let joined = stream.buffer ++ payload in
    if not (p.tcp_seq == stream.next_seq)
    then (if advance_seq p.tcp_seq (length payload) == stream.next_seq
        then done (put_entry stream_key_eq key seen streams, none)
        else done (erase_entry stream_key_eq key streams, none))
    else if ltb max_buffered_bytes (length stream.buffer + length payload)
    then done (erase_entry stream_key_eq key streams, none)
    else if ltb (length joined) stream.needed
    then done (
      put_entry stream_key_eq key
          (record seen { buffer = joined; next_seq = advance_seq stream.next_seq (length payload) })
          streams,
      none,
    )
    else (do
      sni ← parse_tls_client_hello joined
      done (erase_entry stream_key_eq key streams, found_name sni))

unfoldable pub stream_key_of : ParsedPacket → StreamKey
stream_key_of p = record {
  src_ip = p.src_ip;
  dst_ip = p.dst_ip;
  src_port = p.src_port;
  dst_port = p.dst_port;
}

pub feed_found : ParsedPacket → Bytes → Option Stream → Streams → Outcome (Streams × Option Bytes)
feed_found p payload none streams = start_stream (stream_key_of p) p payload streams
feed_found p payload (some stream) streams =
    continue_stream (stream_key_of p) p payload stream streams

pub feed : Streams → ParsedPacket → Bytes → Outcome (Streams × Option Bytes)
feed streams p payload =
    if not (text_eq p.protocol (codes "TCP")) || is_empty payload
    then done (streams, none)
    else feed_found p payload (find_entry stream_key_eq (stream_key_of p) streams) streams

unfoldable pub clear : Streams → Streams
clear streams = []

-- ===== src/TlsReassembler/Bounds.antt =====
-- The sizes of what the reassembler of src/core/TlsReassembler.cpp keeps.
use netprobe_cpp.Base.{
  ◌+◌, ◌*◌, ◌≤◌, ◌<◌, ◌≡◌, arith, true, Option, none, some, not, ◌||◌, ltb, ◌==◌, ◌++◌, length,
  Bytes, ℤ, codes, text_eq, is_empty, Ensures, >>=-Ensures, if-Ensures, IfSome, read, read_u16,
  get_or,
}
use netprobe_cpp.Base.{find_entry, put_entry, erase_entry}
use netprobe_cpp.Base.Table.Laws.{
  IsBoundedTable, find_entry-AllValues, put_entry-IsBoundedTable, erase_entry-IsBoundedTable,
  erase_where-AllValues,
}
use netprobe_cpp.Packet.{ParsedPacket}
use netprobe_cpp.Protocol.Tls.{looks_like_tls_handshake, parse_tls_client_hello}
use netprobe_cpp.Protocol.Tls.Bounds.{
  NameWithin, looks_like_tls_handshake-Ensures, parse_tls_client_hello-Ensures,
}
use netprobe_cpp.TlsReassembler.{
  StreamKey, Stream, Streams, max_tracked_streams, max_buffered_bytes, is_stale, expire_stale,
  add_stream, make_room, start_stream, continue_stream, feed_found, feed, stream_key_of,
  advance_seq, stream_key_eq,
}

-- A stream waits for bytes that its record still lacks, and the record is not too long.
abbrev pub IsWaiting : Stream → Type 0
IsWaiting s = (length s.buffer < s.needed) × (s.needed ≤ max_buffered_bytes)

-- At most as many streams as may be tracked, all of them waiting.
abbrev pub IsBounded : Streams → Type 0
IsBounded streams = IsBoundedTable max_tracked_streams IsWaiting streams

add-IsBounded :
    (key : StreamKey) (stream : Stream) (now : ℤ) (streams : Streams)
    → IsWaiting stream
    → IsBounded streams
    → IsBounded (add_stream key stream (make_room now streams))
unfolding add_stream make_room expire_stale
add-IsBounded key stream now streams w b =
    ground (arith, erase_where-AllValues IsWaiting (is_stale now) streams b.1)

abbrev pub Kept : Streams × Option Bytes → Type 0
Kept (streams, sni) = IsBounded streams

start_stream-Ensures :
    (key : StreamKey) (p : ParsedPacket) (payload : Bytes) (streams : Streams)
    → IsBounded streams
    → Ensures Kept (start_stream key p payload streams)
unfolding start_stream read_u16 read
start_stream-Ensures key p payload streams b =
    >>=-Ensures (λ is_tls. is_tls ≡ true → 5 ≤ length payload) Kept
      (looks_like_tls_handshake payload) _ (looks_like_tls_handshake-Ensures payload)
      λ is_tls long. ground (
        arith,
        long,
        add-IsBounded key
            (record {
              buffer = payload;
              next_seq = advance_seq p.tcp_seq (length payload);
              needed = 5 + (get_or payload 3 0 * 256 + get_or payload 4 0);
              last_seen = p.timestamp;
            })
            p.timestamp streams,
      )

continue_stream-Ensures :
    (key : StreamKey) (p : ParsedPacket) (payload : Bytes) (stream : Stream) (streams : Streams)
    → IsWaiting stream
    → IsBounded streams
    → Ensures Kept (continue_stream key p payload stream streams)
unfolding continue_stream
continue_stream-Ensures key p payload stream streams w b =
    let joined = stream.buffer ++ payload in
    if-Ensures Kept (not (p.tcp_seq == stream.next_seq)) _ _
      (λ _.
        if-Ensures Kept (advance_seq p.tcp_seq (length payload) == stream.next_seq) _ _
          (λ _. put (record stream { last_seen = p.timestamp }) w) (λ _. erased))
      λ _.
        if-Ensures Kept (ltb max_buffered_bytes (length stream.buffer + length payload)) _ _
          (λ _. erased)
          λ _.
            if-Ensures Kept (ltb (length joined) stream.needed) _ _
              (λ short.
                put
                  (record stream {
                    last_seen = p.timestamp;
                    buffer = joined;
                    next_seq = advance_seq stream.next_seq (length payload);
                  })
                  (ground arith, w.1))
              λ _.
                >>=-Ensures (IfSome (NameWithin joined)) Kept (parse_tls_client_hello joined) _
                  (parse_tls_client_hello-Ensures joined) (λ _ _. erased)
  where
    erased : IsBounded (erase_entry stream_key_eq key streams)
    erased = erase_entry-IsBoundedTable stream_key_eq IsWaiting max_tracked_streams key streams b

    put : (s : Stream) → IsWaiting s → IsBounded (put_entry stream_key_eq key s streams)
    put s v = put_entry-IsBoundedTable stream_key_eq IsWaiting max_tracked_streams key s streams v b

-- On every segment `feed` comes to a result with no read outside of a buffer, and keeps at most
-- 2048 streams, each of which lacks bytes of its record, a record of at most 64 KiB.
pub feed-Ensures :
    (streams : Streams) (p : ParsedPacket) (payload : Bytes)
    → IsBounded streams
    → Ensures Kept (feed streams p payload)
unfolding feed
feed-Ensures streams p payload b =
    if-Ensures Kept (not (text_eq p.protocol (codes "TCP")) || is_empty payload) _ _ (λ _. b)
      λ _.
        go (find_entry stream_key_eq (stream_key_of p) streams)
          (find_entry-AllValues stream_key_eq IsWaiting (stream_key_of p) streams b.1)
  where
    go : (o : Option Stream) → IfSome IsWaiting o → Ensures Kept (feed_found p payload o streams)
    go none w = unfold feed_found in start_stream-Ensures (stream_key_of p) p payload streams b
    go (some stream) w =
        unfold feed_found in continue_stream-Ensures (stream_key_of p) p payload stream streams w b

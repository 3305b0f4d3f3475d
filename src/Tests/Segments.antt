-- ===== src/Tests/Segments.antt =====
-- The reassembler at a ClientHello in three segments.
use netprobe_cpp.Base.{
  find_entry, ◌≡◌, refl, arith, [], ◌∷◌, ◌++◌, take, drop, Bytes, codes, text_eq, is_empty, pos,
  done, ◌>>=◌, Ensures,
}
use netprobe_cpp.Protocol.Tls.{parse_tls_client_hello}
use netprobe_cpp.TlsReassembler.{Stream, Streams, feed, found_name, stream_key_of, stream_key_eq}
use netprobe_cpp.TlsReassembler.Bounds.{Kept, feed-Ensures}
use netprobe_cpp.TlsReassembler.Joined.{feed_pieces, returned, feed_pieces-parse}
use netprobe_cpp.Tests.Data.{web_packet, tls_record}

-- The first 20 bytes of the record are there.
abbrev begun : Stream
begun = record {
  buffer = take 20 tls_record;
  next_seq = 4294967290;
  needed = 65;
  last_seen = pos 0;
}

abbrev second : Bytes
second = take 20 (drop 20 tls_record)

abbrev third : Bytes
third = drop 40 tls_record

abbrev tracked : Streams
tracked = (stream_key_of web_packet, begun) ∷ []

feed-Ensures_example : Ensures Kept (feed [] web_packet (take 20 tls_record))
feed-Ensures_example = feed-Ensures [] web_packet (take 20 tls_record) (omega arith, tt)

feed_pieces-parse_example :
    returned (feed_pieces tracked web_packet 4294967290 (second ∷ []) third) ≡ (
      parse_tls_client_hello (take 20 tls_record ++ ((second ++ []) ++ third)) >>= λ sni.
      done (found_name sni))
unfolding find_entry stream_key_of stream_key_eq text_eq codes is_empty
feed_pieces-parse_example =
    feed_pieces-parse (second ∷ []) third web_packet begun tracked ((refl, refl), tt) (refl, refl)
      refl (omega arith) (omega arith) (omega arith) (omega arith)

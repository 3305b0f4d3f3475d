-- ===== src/TlsReassembler/Joined.antt =====
-- Handshakes in pieces, for the reassembler of src/core/TlsReassembler.cpp.
use mathlib.Core.List.{append_assoc}
use netprobe_cpp.Base.{
  ℕ, ◌+◌, ◌≤◌, ◌<◌, ◌≡◌, refl, sym, ap, ◌∙◌, arith, true, false, Option, none, some, List, [], ◌∷◌,
  ◌++◌, length, length-append, Bytes, codes, text_eq, is_empty, Outcome, done, fault, stuck, ◌>>=◌,
}
use netprobe_cpp.Base.{find_entry, put_entry, erase_entry}
use netprobe_cpp.Base.Table.Laws.{find_entry-put_entry}
use netprobe_cpp.Packet.{ParsedPacket}
use netprobe_cpp.Protocol.Tls.{parse_tls_client_hello}
use netprobe_cpp.TlsReassembler.{
  Stream, Streams, max_buffered_bytes, continue_stream, feed_found, feed, stream_key_of,
  advance_seq, found_name, stream_key_eq,
}

-- The packet of a piece, of the same endpoints.
abbrev pub at_seq : ParsedPacket → ℕ → ParsedPacket
at_seq p seq = record p { tcp_seq = seq }

-- The stream after a piece that does not complete the record.
abbrev pub extended : ParsedPacket → Stream → Bytes → Stream
extended p s piece = record {
  buffer = s.buffer ++ piece;
  next_seq = advance_seq s.next_seq (length piece);
  needed = s.needed;
  last_seen = p.timestamp;
}

-- A piece of TCP payload.
abbrev pub IsPiece : ParsedPacket → Bytes → Type 0
IsPiece p piece = (text_eq p.protocol (codes "TCP") ≡ true) × (is_empty piece ≡ false)

feed-short :
    (p : ParsedPacket) (piece : Bytes) (s : Stream) (streams : Streams)
    → IsPiece p piece
    → find_entry stream_key_eq (stream_key_of p) streams ≡ some s
    → length (s.buffer ++ piece) < s.needed
    → s.needed ≤ max_buffered_bytes
    → feed streams (at_seq p s.next_seq) piece
      ≡ done (put_entry stream_key_eq (stream_key_of p) (extended p s piece) streams, none)
unfolding feed feed_found continue_stream stream_key_of
feed-short p piece s streams i h short most = ground (arith, length-append s.buffer piece)

feed-last :
    (p : ParsedPacket) (piece : Bytes) (s : Stream) (streams : Streams)
    → IsPiece p piece
    → find_entry stream_key_eq (stream_key_of p) streams ≡ some s
    → s.needed ≤ length (s.buffer ++ piece)
    → length (s.buffer ++ piece) ≤ max_buffered_bytes
    → feed streams (at_seq p s.next_seq) piece ≡ (
        parse_tls_client_hello (s.buffer ++ piece) >>= λ sni.
        done (erase_entry stream_key_eq (stream_key_of p) streams, found_name sni))
unfolding feed feed_found continue_stream stream_key_of
feed-last p piece s streams i h full most = ground (arith, length-append s.buffer piece)

abbrev pub glued : List Bytes → Bytes
glued [] = []
glued (piece ∷ pieces) = piece ++ glued pieces

abbrev pub AllPieces : ParsedPacket → List Bytes → Type 0
AllPieces p [] = Unit {0}
AllPieces p (piece ∷ pieces) = IsPiece p piece × AllPieces p pieces

-- The pieces one behind the other, from `seq` on; the result is that of the last one.
abbrev pub feed_pieces :
    Streams → ParsedPacket → ℕ → List Bytes → Bytes → Outcome (Streams × Option Bytes)
feed_pieces streams p seq [] last = feed streams (at_seq p seq) last
feed_pieces streams p seq (piece ∷ pieces) last = feed streams (at_seq p seq) piece >>= λ r.
    feed_pieces r.0 p (advance_seq seq (length piece)) pieces last

-- What `feed` returns, without the streams it leaves.
abbrev pub returned : Outcome (Streams × Option Bytes) → Outcome (Option Bytes)
returned m = m >>= λ r. done r.1

abbrev ended : Streams → Option Bytes → Outcome (Streams × Option Bytes)
ended streams sni = done (streams, found_name sni)

answer :
    (m : Outcome (Option Bytes)) (streams : Streams)
    → returned (m >>= ended streams) ≡ (m >>= λ sni. done (found_name sni))
answer (done a) streams = refl
answer fault streams = refl
answer stuck streams = refl

glued_assoc :
    (buffer piece rest last : Bytes)
    → (buffer ++ piece) ++ (rest ++ last) ≡ buffer ++ ((piece ++ rest) ++ last)
glued_assoc buffer piece rest last =
    append_assoc buffer piece (rest ++ last)
    ∙ ap (λ xs. buffer ++ xs) (sym (append_assoc piece rest last))

-- For a stream that is tracked, pieces of TCP payload that follow it in order, the last of which
-- completes the record, within 64 KiB in all: the last one returns the name that
-- `parseTlsClientHello` finds in all the bytes together, if it finds one that is not empty.
pub feed_pieces-parse :
    (pieces : List Bytes) (last : Bytes) (p : ParsedPacket) (s : Stream) (streams : Streams)
    → AllPieces p pieces
    → IsPiece p last
    → find_entry stream_key_eq (stream_key_of p) streams ≡ some s
    → s.needed ≤ max_buffered_bytes
    → length s.buffer + length (glued pieces) < s.needed
    → s.needed ≤ length s.buffer + length (glued pieces) + length last
    → length s.buffer + length (glued pieces) + length last ≤ max_buffered_bytes
    → returned (feed_pieces streams p s.next_seq pieces last) ≡ (
        parse_tls_client_hello (s.buffer ++ (glued pieces ++ last)) >>= λ sni.
        done (found_name sni))
feed_pieces-parse [] last p s streams a i h most short full fits =
    rw
      (feed-last p last s streams i h (omega (arith, length-append s.buffer last))
        (omega (arith, length-append s.buffer last)))
      (answer (parse_tls_client_hello (s.buffer ++ last))
        (erase_entry stream_key_eq (stream_key_of p) streams))
feed_pieces-parse (piece ∷ pieces) last p s streams a i h most short full fits =
    rw
      (feed-short p piece s streams a.0 h
        (omega (arith, length-append s.buffer piece, length-append piece (glued pieces))) most)
      (feed_pieces-parse pieces last p (extended p s piece)
          (put_entry stream_key_eq (stream_key_of p) (extended p s piece) streams) a.1 i
          (find_entry-put_entry stream_key_eq (stream_key_of p) s (extended p s piece) streams h)
          most (omega (arith, length-append s.buffer piece, length-append piece (glued pieces)))
          (omega (arith, length-append s.buffer piece, length-append piece (glued pieces)))
          (omega (arith, length-append s.buffer piece, length-append piece (glued pieces)))
        ∙ ap (λ xs. parse_tls_client_hello xs >>= λ sni. done (found_name sni))
            (glued_assoc s.buffer piece (glued pieces) last))

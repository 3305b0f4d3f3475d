-- ===== src/QuicTracker/Bounds.antt =====
-- The sizes of what the tracker of src/core/QuicTracker.cpp keeps, and what it reads and writes.
use netprobe_cpp.Base.{
  ℕ, ◌+◌, ◌-◌, ◌≤◌, ◌≡◌, refl, arith, Bool, true, false, Option, none, some, ltb, leb, List, [],
  ◌∷◌, ◌++◌, length, length-append, length-take, length-drop, length-replicate, take, drop,
  replicate, Bytes, text_eq, is_empty, slice, ℤ, Ensures, >>=-Ensures, >?=-Ensures, if-Ensures,
  IfSome, write_bytes, write_bytes-Ensures, find_entry, put_entry, erase_entry,
}
use netprobe_cpp.Base.Table.Laws.{
  IsBoundedTable, find_entry-AllValues, put_entry-IsBoundedTable, erase_entry-IsBoundedTable,
  erase_where-AllValues,
}
use netprobe_cpp.Quic.Keys.{CryptoLibrary}
use netprobe_cpp.Quic.Frames.{CryptoFragment}
use netprobe_cpp.Quic.Hello.{sni_from_client_hello}
use netprobe_cpp.Quic.Hello.Bounds.{sni_from_client_hello-Ensures}
use netprobe_cpp.Quic.Initial.{InitialPacket, parse_initial}
use netprobe_cpp.Quic.Initial.Bounds.{BlockSized, SanePacket, parse_initial-Ensures}
use netprobe_cpp.QuicTracker.{
  Connection, Connections, max_stream_bytes, max_tracked_connections, is_stale, expire_stale,
  resize, mark_present, grow, put_fragment, put_fragments, answer_of, after_fragments,
  feed_connection, empty_connection, make_room, feed_new, feed_found, feed_packet, feed,
  contiguous_prefix,
}

-- There is a mark for each byte, and not too many bytes.
abbrev pub IsConnection : Connection → Type 0
IsConnection c = (length c.present ≡ length c.stream) × (length c.stream ≤ max_stream_bytes)

abbrev pub IsBounded : Connections → Type 0
IsBounded table = IsBoundedTable max_tracked_connections IsConnection table

length-resize {ℓ} :
    {A : Type ℓ} (xs : List A) (size : ℕ) (a : A)
    → length xs ≤ size
    → length (resize xs size a) ≡ size
unfolding resize
length-resize xs size a h = omega (
  arith,
  length-append xs (replicate (size - length xs) a),
  length-replicate (size - length xs) a,
)

mark_present-Ensures :
    (present : List Bool) (offset count size : ℕ)
    → length present ≡ size
    → offset + count ≤ size
    → Ensures (λ marks. length marks ≡ size) (mark_present present offset count)
unfolding mark_present
mark_present-Ensures present offset count size e h = ground (
  arith,
  length-append (take offset present) (replicate count true ++ drop (offset + count) present),
  length-append (replicate count true) (drop (offset + count) present),
  length-take offset present,
  length-drop (offset + count) present,
  length-replicate count true,
)

-- Room for the fragment, within the bound.
grow-IsConnection :
    (end : ℕ) (c : Connection)
    → IsConnection c
    → end ≤ max_stream_bytes
    → IsConnection (grow end c) × (end ≤ length (grow end c).stream)
unfolding grow
grow-IsConnection end c i h =
    ground (arith, length-resize c.stream end 0, length-resize c.present end false)

put_fragment-Ensures :
    (c : Connection) (f : CryptoFragment)
    → IsConnection c
    → Ensures (IfSome IsConnection) (put_fragment c f)
unfolding put_fragment
put_fragment-Ensures c f i =
    let end = f.offset + length f.content in
    let room = grow end c in
    if-Ensures (IfSome IsConnection) (ltb max_stream_bytes end) _ _ (λ _. tt)
      λ fits.
        let g = grow-IsConnection end c i (ground arith) in
        >>=-Ensures (λ s. length s ≡ length room.stream) (IfSome IsConnection)
          (write_bytes room.stream f.offset f.content) _
          (write_bytes-Ensures room.stream f.offset f.content (length room.stream) refl g.1)
          λ stream s.
            >>=-Ensures (λ m. length m ≡ length room.stream) (IfSome IsConnection)
              (mark_present room.present f.offset (length f.content)) _
              (mark_present-Ensures room.present f.offset (length f.content) (length room.stream)
                g.0.0 g.1)
              λ present m. (omega (arith, s, m), omega (arith, s, g.0.1))

put_fragments-Ensures :
    (fs : List CryptoFragment) (c : Connection)
    → IsConnection c
    → Ensures (IfSome IsConnection) (put_fragments c fs)
unfolding put_fragments
put_fragments-Ensures [] c i = i
put_fragments-Ensures (f ∷ fs) c i =
    >?=-Ensures IsConnection IsConnection (put_fragment c f) _ (put_fragment-Ensures c f i)
      λ d j. put_fragments-Ensures fs d j

abbrev pub Kept : Connections × Option Bytes → Type 0
Kept (table, sni) = IsBounded table

erased :
    (id : Bytes) (table : Connections) → IsBounded table → IsBounded (erase_entry text_eq id table)
erased id table b =
    erase_entry-IsBoundedTable text_eq IsConnection max_tracked_connections id table b

after_fragments-Ensures :
    (id : Bytes) (table : Connections) (fed : Option Connection)
    → IsBounded table
    → IfSome IsConnection fed
    → Ensures Kept (after_fragments id table fed)
unfolding after_fragments answer_of
after_fragments-Ensures id table none b i = erased id table b
after_fragments-Ensures id table (some c) b i =
    let kept = put_entry text_eq id c table in
    let k = put_entry-IsBoundedTable text_eq IsConnection max_tracked_connections id c table i b in
    let usable = contiguous_prefix c in
    if-Ensures Kept (ltb usable 4) _ _ (λ _. k)
      λ _.
        >>=-Ensures (IfSome (λ name. length name ≤ length (slice c.stream 0 usable))) Kept
          (sni_from_client_hello (slice c.stream 0 usable)) _
          (sni_from_client_hello-Ensures (slice c.stream 0 usable))
          (elim [ none ↦ λ _. k | some sni ↦ λ _. erased id kept k ])

feed_connection-Ensures :
    (now : ℤ) (packet : InitialPacket) (table : Connections) (c : Connection)
    → IsBounded table
    → IsConnection c
    → Ensures Kept (feed_connection now packet table c)
unfolding feed_connection
feed_connection-Ensures now packet table c b i =
    >>=-Ensures (IfSome IsConnection) Kept
      (put_fragments (record c { last_seen = now }) packet.crypto) _
      (put_fragments-Ensures packet.crypto (record c { last_seen = now }) i)
      λ fed f. after_fragments-Ensures packet.destination_connection_id table fed b f

make_room-IsBounded :
    (now : ℤ) (table : Connections) → IsBounded table → IsBounded (make_room now table)
unfolding make_room expire_stale
make_room-IsBounded now table b =
    ground (arith, erase_where-AllValues IsConnection (is_stale now) table b.1)

feed_new-Ensures :
    (now : ℤ) (packet : InitialPacket) (table : Connections)
    → IsBounded table
    → Ensures Kept (feed_new now packet table)
unfolding feed_new empty_connection
feed_new-Ensures now packet table b =
    if-Ensures Kept (leb max_tracked_connections (length table)) _ _ (λ _. b)
      λ room.
        feed_connection-Ensures now packet
          ((packet.destination_connection_id, empty_connection) ∷ table) empty_connection
          (ground arith, ((refl, omega arith), b.1)) (refl, omega arith)

feed_packet-Ensures :
    (now : ℤ) (table : Connections) (packet : Option InitialPacket)
    → IsBounded table
    → Ensures Kept (feed_packet now table packet)
unfolding feed_packet feed_found
feed_packet-Ensures now table none b = b
feed_packet-Ensures now table (some packet) b =
    if-Ensures Kept (is_empty packet.crypto) _ _ (λ _. b)
      λ _.
        go (find_entry text_eq packet.destination_connection_id table)
          (find_entry-AllValues text_eq IsConnection packet.destination_connection_id table b.1)
  where
    go :
        (o : Option Connection)
        → IfSome IsConnection o
        → Ensures Kept (feed_found now packet table o)
    go none i = feed_new-Ensures now packet (make_room now table) (make_room-IsBounded now table b)
    go (some c) i = feed_connection-Ensures now packet table c b i

-- On every datagram `feed` ends, with no read or write outside of a buffer, and keeps at most 1024
-- connections, each of at most 64 KiB and with a mark for each of its bytes.
pub feed-Kept :
    (lib : CryptoLibrary) (table : Connections) (payload : Bytes) (now : ℤ)
    → BlockSized lib
    → IsBounded table
    → Ensures Kept (feed lib table payload now)
unfolding feed
feed-Kept lib table payload now l b =
    >>=-Ensures SanePacket Kept (parse_initial lib payload) _ (parse_initial-Ensures lib payload l)
      λ packet _. feed_packet-Ensures now table packet b

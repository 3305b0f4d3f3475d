-- ===== src/QuicTracker.antt =====
-- src/core/QuicTracker.hpp and QuicTracker.cpp: a ClientHello that is spread over several Initial
-- packets, by their connection id.
pub mod Bounds
use netprobe_cpp.Base.{
  ℕ, zero, suc, ◌+◌, ◌-◌, ◌*◌, Bool, true, false, Option, none, some, ◌||◌, not, ltb, leb,
  if◌then◌else◌, List, [], ◌∷◌, ◌++◌, length, take, drop, replicate, Bytes, text_eq, is_empty,
  slice, ℤ, pos, ltb_ℤ, ◌-ℤ◌, Outcome, done, fault, ◌>>=◌, ◌>?=◌, write_bytes, find_entry,
  put_entry, erase_entry, erase_where,
}
use netprobe_cpp.Quic.Keys.{CryptoLibrary}
use netprobe_cpp.Quic.Frames.{CryptoFragment}
use netprobe_cpp.Quic.Hello.{sni_from_client_hello}
use netprobe_cpp.Quic.Initial.{InitialPacket, parse_initial}

-- The bytes of the stream, and which of them have arrived.
pub record Connection : Type 0 where
  pub stream : Bytes
  pub present : List Bool
  pub last_seen : ℤ

abbrev pub Connections : Type 0
Connections = List (Bytes × Connection)

abbrev pub max_stream_bytes : ℕ
max_stream_bytes = 64 * 1024

abbrev pub max_tracked_connections : ℕ
max_tracked_connections = 1024

abbrev pub connection_timeout_microseconds : ℕ
connection_timeout_microseconds = 10_000_000

pub leading : List Bool → ℕ
leading [] = 0
leading (here ∷ rest) = let more = leading rest in if here then suc more else 0

-- `contiguousPrefix`
pub contiguous_prefix : Connection → ℕ
contiguous_prefix c = leading c.present

pub is_stale : ℤ → Connection → Bool
is_stale now c = ltb_ℤ (pos connection_timeout_microseconds) (now -ℤ c.last_seen)

pub expire_stale : ℤ → Connections → Connections
expire_stale now table = erase_where (is_stale now) table

-- `resize`, where the vector is the shorter.
pub resize {ℓ} : {A : Type ℓ} → List A → ℕ → A → List A
resize xs size a = xs ++ replicate (size - length xs) a

-- `std::fill` of `present` with `true`, from `offset` to `end`.
pub mark_present : List Bool → ℕ → ℕ → Outcome (List Bool)
mark_present present offset count =
    if leb (offset + count) (length present)
    then done (take offset present ++ (replicate count true ++ drop (offset + count) present))
    else fault

-- The stream and its marks, long enough for a fragment.
pub grow : ℕ → Connection → Connection
grow end c =
    if ltb (length c.stream) end
    then record c { stream = resize c.stream end 0; present = resize c.present end false }
    else c

-- One fragment in its place; `none` is the connection given up.
pub put_fragment : Connection → CryptoFragment → Outcome (Option Connection)
put_fragment c f =
    let end = f.offset + length f.content in
    let room = grow end c in
    if ltb max_stream_bytes end then done none else (do
      stream ← write_bytes room.stream f.offset f.content
      present ← mark_present room.present f.offset (length f.content)
      done (some (record room { stream = stream; present = present })))

pub put_fragments : Connection → List CryptoFragment → Outcome (Option Connection)
put_fragments c [] = done (some c)
put_fragments c (f ∷ fs) = put_fragment c f >?= λ d. put_fragments d fs

-- What `feed` returns of the ClientHello, where all of it is there: the connection goes then.
pub answer_of : Bytes → Connections → Option Bytes → Connections × Option Bytes
answer_of id table none = (table, none)
answer_of id table (some sni) = (erase_entry text_eq id table, some sni)

pub after_fragments : Bytes → Connections → Option Connection → Outcome (Connections × Option Bytes)
after_fragments id table none = done (erase_entry text_eq id table, none)
after_fragments id table (some c) =
    let kept = put_entry text_eq id c table in
    let usable = contiguous_prefix c in
    if ltb usable 4
    then done (kept, none)
    else (do sni ← sni_from_client_hello (slice c.stream 0 usable); done (answer_of id kept sni))

-- The fragments of a packet for a connection that is tracked.
pub feed_connection :
    ℤ → InitialPacket → Connections → Connection → Outcome (Connections × Option Bytes)
feed_connection now packet table c = do
  fed ← put_fragments (record c { last_seen = now }) packet.crypto
  after_fragments packet.destination_connection_id table fed

pub empty_connection : Connection
empty_connection = record { stream = []; present = []; last_seen = pos 0 }

pub make_room : ℤ → Connections → Connections
make_room now table =
    if leb max_tracked_connections (length table) then expire_stale now table else table

pub feed_new : ℤ → InitialPacket → Connections → Outcome (Connections × Option Bytes)
feed_new now packet table =
    if leb max_tracked_connections (length table)
    then done (table, none)
    else feed_connection now packet ((packet.destination_connection_id, empty_connection) ∷ table)
        empty_connection

pub feed_found :
    ℤ → InitialPacket → Connections → Option Connection → Outcome (Connections × Option Bytes)
feed_found now packet table none = feed_new now packet (make_room now table)
feed_found now packet table (some c) = feed_connection now packet table c

pub feed_packet : ℤ → Connections → Option InitialPacket → Outcome (Connections × Option Bytes)
feed_packet now table none = done (table, none)
feed_packet now table (some packet) =
    if is_empty packet.crypto
    then done (table, none)
    else feed_found now packet table (find_entry text_eq packet.destination_connection_id table)

pub feed : CryptoLibrary → Connections → Bytes → ℤ → Outcome (Connections × Option Bytes)
feed lib table payload now = do packet ← parse_initial lib payload; feed_packet now table packet

unfoldable pub clear : Connections → Connections
clear table = []

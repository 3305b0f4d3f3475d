-- ===== src/CaptureEngine/Export.antt =====
-- src/capture/CaptureEngine.cpp, `exportSession`, against `nextPacket` of LibpcapBackend.cpp: the
-- records that are handed to libpcap. Whether it can write, and what it reads back, are arguments.
use netprobe_cpp.Base.{
  ℕ, zero, suc, ◌/◌, ◌%◌, ◌^◌, ◌*◌, ◌<◌, ◌≤◌, ◌≡◌, ◌≢◌, refl, ap, arith, Bool, true, Option, none,
  some, ◌||◌, not, ltb, if◌then◌else◌, List, [], ◌∷◌, map, All, Bytes, length, take, ℤ, pos, negsuc,
  pos_part, neg_part, sub_ℕ,
}
use netprobe_cpp.LinkType.{
  LinkType, unsupported, dlt_from_link_type, link_type_from_dlt,
  link_type_from_dlt-dlt_from_link_type,
}
use netprobe_cpp.Packet.{PacketData}
use netprobe_cpp.CaptureEngine.Backend.{PcapRecord, packet_of_record, join_time}
use netprobe_cpp.CaptureEngine.Session.{Engine}

-- The number -n.
unfoldable pub minus : ℕ → ℤ
minus zero = pos 0
minus (suc n) = negsuc n

-- `/` and `%` by 1'000'000, which round towards 0.
pub whole_seconds : ℤ → ℤ
whole_seconds (pos n) = pos (n / 1_000_000)
whole_seconds (negsuc n) = minus (suc n / 1_000_000)

pub odd_microseconds : ℤ → ℤ
odd_microseconds (pos n) = pos (n % 1_000_000)
odd_microseconds (negsuc n) = minus (suc n % 1_000_000)

-- The header and the bytes that `pcap_dump` is given.
pub record_of : PacketData → PcapRecord
record_of p = record {
  seconds = whole_seconds p.timestamp;
  microseconds = odd_microseconds p.timestamp;
  captured = length p.payload % 2 ^ 32;
  wire = p.length % 2 ^ 32;
  bytes = p.payload;
}

-- What is written: the DLT and the snapshot length of the header, and the records.
pub record SavedFile : Type 0 where
  pub dlt : ℕ
  pub snaplen : ℕ
  pub records : List PcapRecord

-- `none` where `pcap_open_dead` or `pcap_dump_open` fails.
pub export_session : Bool → Bool → Engine → Option SavedFile
export_session opens_dead opens_dump e =
    if not opens_dead || not opens_dump
    then none
    else some (record {
      dlt = dlt_from_link_type e.session_link_type;
      snaplen = 65536;
      records = map record_of e.session_packets;
    })

-- The packets that the backend makes of what libpcap reads of a file.
abbrev pub packets_of : (SavedFile → List PcapRecord) → Option SavedFile → Option (List PacketData)
packets_of read_back none = none
packets_of read_back (some file) =
    some (map (packet_of_record (link_type_from_dlt file.dlt)) (read_back file))

-- A packet as the backend makes them, of a link type.
abbrev IsCaptured : LinkType → PacketData → Type 0
IsCaptured link p =
    (p.link_type ≡ link)
    × (p.captured_length ≡ length p.payload)
    × (length p.payload < 2 ^ 32)
    × (p.length < 2 ^ 32)

-- Such a packet within the snapshot length, with a time that 32 bits of seconds hold.
abbrev pub IsExported : LinkType → PacketData → Type 0
IsExported link p =
    (p.link_type ≡ link)
    × (p.captured_length ≡ length p.payload)
    × (length p.payload ≤ 65536)
    × (p.length < 2 ^ 32)
    × (n : ℕ) × (p.timestamp ≡ pos n)
    × (n < 2 ^ 32 * 1_000_000)

-- A record that a file can hold: within the snapshot length, and with 32 bits of seconds.
abbrev pub Fits : ℕ → PcapRecord → Type 0
Fits snaplen r =
    (r.captured ≤ snaplen)
    × (length r.bytes ≡ r.captured)
    × (n : ℕ) × (r.seconds ≡ pos n)
    × (n < 2 ^ 32)
    × (u : ℕ) × (r.microseconds ≡ pos u)
    × (u < 1_000_000)

sub_ℕ-pos : (a b n : ℕ) → a ≡ n → b ≡ 0 → sub_ℕ a b ≡ pos n
sub_ℕ-pos a b n e f = ground arith

sub_ℕ-negsuc : (a b n : ℕ) → a ≡ 0 → b ≡ suc n → sub_ℕ a b ≡ negsuc n
sub_ℕ-negsuc a b n e f = ground arith

minus-parts : (n : ℕ) → (pos_part (minus n) ≡ 0) × (neg_part (minus n) ≡ n)
unfolding minus
minus-parts zero = (refl, refl)
minus-parts (suc n) = (refl, refl)

join_time-whole_seconds : (t : ℤ) → join_time (whole_seconds t) (odd_microseconds t) ≡ t
unfolding join_time whole_seconds odd_microseconds
join_time-whole_seconds (pos n) = sub_ℕ-pos _ _ n (omega arith) (omega arith)
join_time-whole_seconds (negsuc n) =
    let s = minus-parts (suc n / 1_000_000) in
    let u = minus-parts (suc n % 1_000_000) in
    sub_ℕ-negsuc _ _ n (omega (arith, s.0, u.0)) (omega (arith, s.1, u.1))

take-length {ℓ} : {A : Type ℓ} (xs : List A) → take (length xs) xs ≡ xs
take-length [] = refl
take-length (x ∷ xs) = ap (λ ys. x ∷ ys) (take-length xs)

payload-take :
    (payload : Bytes) (n : ℕ)
    → n ≡ length payload
    → (if ltb 0 n then take n payload else []) ≡ payload
payload-take [] n e = rw e refl
payload-take (b ∷ payload) n e = rw e (ground (arith, take-length payload))

packet_of_record-record_of :
    (link : LinkType) (p : PacketData) → IsCaptured link p → packet_of_record link (record_of p) ≡ p
unfolding packet_of_record record_of
packet_of_record-record_of link p (same, captured, bytes, wire) = ground (
  arith,
  join_time-whole_seconds p.timestamp,
  payload-take p.payload (length p.payload % 2 ^ 32) (omega (arith, bytes)),
)

map-record_of :
    (link : LinkType) (packets : List PacketData)
    → All (IsCaptured link) packets
    → map (packet_of_record link) (map record_of packets) ≡ packets
map-record_of link [] a = refl
map-record_of link (p ∷ packets) a =
    rw (packet_of_record-record_of link p a.0, map-record_of link packets a.1) refl

record_of-Fits : (link : LinkType) (p : PacketData) → IsExported link p → Fits 65536 (record_of p)
unfolding record_of whole_seconds odd_microseconds
record_of-Fits link p (same, captured, bytes, wire, n, time, bound) = (
  omega (arith, bytes),
  omega (arith, bytes),
  n / 1_000_000,
  rw time refl,
  omega (arith, bound),
  n % 1_000_000,
  rw time refl,
  omega arith,
)

records-Fits :
    (link : LinkType) (packets : List PacketData)
    → All (IsExported link) packets
    → All (Fits 65536) (map record_of packets)
records-Fits link [] a = tt
records-Fits link (p ∷ packets) a = (record_of-Fits link p a.0, records-Fits link packets a.1)

IsExported-IsCaptured :
    (link : LinkType) (packets : List PacketData)
    → All (IsExported link) packets
    → All (IsCaptured link) packets
IsExported-IsCaptured link [] a = tt
IsExported-IsCaptured link (p ∷ packets) a =
    let e = a.0 in ((e.0, e.1, omega (arith, e.2), e.3), IsExported-IsCaptured link packets a.1)

-- A session of captured packets of one supported link type, each with at most 65536 bytes and a time
-- from 1970 on that 32 bits of seconds hold: where libpcap reads from a file the records that were
-- written to it, if they fit its snapshot length and have such times, the backend makes of the
-- exported file exactly these packets.
pub packets_of-export_session :
    (read_back : SavedFile → List PcapRecord) (e : Engine)
    → ((file : SavedFile) → All (Fits file.snaplen) file.records → read_back file ≡ file.records)
    → e.session_link_type ≢ unsupported
    → All (IsExported e.session_link_type) e.session_packets
    → packets_of read_back (export_session true true e) ≡ some e.session_packets
unfolding export_session
packets_of-export_session read_back e reads s a = ap some (
    rw
      (
        reads
            (record {
              dlt = dlt_from_link_type e.session_link_type;
              snaplen = 65536;
              records = map record_of e.session_packets;
            })
            (records-Fits e.session_link_type e.session_packets a),
        link_type_from_dlt-dlt_from_link_type e.session_link_type s,
      )
      (map-record_of e.session_link_type e.session_packets
        (IsExported-IsCaptured e.session_link_type e.session_packets a)))

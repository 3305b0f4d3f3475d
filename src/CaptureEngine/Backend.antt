-- ===== src/CaptureEngine/Backend.antt =====
-- src/capture/LibpcapBackend.cpp (NpcapBackend.cpp differs in the calls that list and open adapters
-- only): the handle of libpcap. What libpcap opens and compiles, and what `pcap_next_ex` returns,
-- are arguments.
use netprobe_cpp.Base.{
  ℕ, ◌+◌, ◌*◌, Bool, true, false, Option, none, some, ltb, if◌then◌else◌, [], Bytes, codes,
  is_empty, take, ℤ, pos_part, neg_part, sub_ℕ, Outcome, done, fault,
}
use netprobe_cpp.LinkType.{LinkType, ethernet, link_type_from_dlt}
use netprobe_cpp.Packet.{PacketData}

-- A `pcap_pkthdr` and the bytes behind it.
pub record PcapRecord : Type 0 where
  pub seconds : ℤ
  pub microseconds : ℤ
  pub captured : ℕ
  pub wire : ℕ
  pub bytes : Bytes

-- What `pcap_next_ex` returns: 1 with a record, 0, -2, or another number.
pub data PcapNext : Type 0 where
  next_record : PcapRecord → PcapNext
  next_timeout next_end next_error : PcapNext

-- `pcap_open_live` and `pcap_open_offline` with the DLT of the handle, and whether a filter both
-- compiles and can be set.
pub record Pcap : Type 0 where
  pub open_live : Bytes → Option ℕ
  pub open_offline : Bytes → Option ℕ
  pub sets_filter : Bytes → Bool

-- `m_handle` with its DLT, and `m_linkType`.
pub record Backend : Type 0 where
  pub handle : Option ℕ
  pub link_type : LinkType

unfoldable pub closed : Backend
closed = record { handle = none; link_type = ethernet }

unfoldable pub is_open : Backend → Bool
is_open b = elim b.handle [ none ↦ false | some dlt ↦ true ]

-- `cacheLinkType` on a handle that was opened, or not.
unfoldable pub with_handle : Option ℕ → Backend
with_handle none = record { handle = none; link_type = ethernet }
with_handle (some dlt) = record { handle = some dlt; link_type = link_type_from_dlt dlt }

unfoldable pub open_live : Pcap → Bytes → Backend
open_live lib name = with_handle (lib.open_live name)

unfoldable pub open_file : Pcap → Bytes → Backend
open_file lib path = with_handle (lib.open_offline path)

unfoldable pub set_filter : Pcap → Bytes → Backend → Bool
set_filter lib filter b =
    let expression = if is_empty filter then codes "len >= 0" else filter in
    if is_open b then lib.sets_filter expression else false

-- seconds * 1'000'000 + microseconds
unfoldable pub join_time : ℤ → ℤ → ℤ
join_time s u = sub_ℕ (pos_part s * 1_000_000 + pos_part u) (neg_part s * 1_000_000 + neg_part u)

-- `PacketData(timestamp, header->len, header->caplen, bytes, m_linkType)`
unfoldable pub packet_of_record : LinkType → PcapRecord → PacketData
packet_of_record link r = record {
  timestamp = join_time r.seconds r.microseconds;
  length = r.wire;
  captured_length = r.captured;
  link_type = link;
  payload = if ltb 0 r.captured then take r.captured r.bytes else [];
}

-- `PacketReadStatus`, with the packet that comes with it.
pub data PacketRead : Type 0 where
  packet : PacketData → PacketRead
  timeout end_of_file error : PacketRead

unfoldable pub read_of : LinkType → PcapNext → PacketRead
read_of link (next_record r) = packet (packet_of_record link r)
read_of link next_timeout = timeout
read_of link next_end = end_of_file
read_of link next_error = error

-- `nextPacket`. libpcap reads through the handle: a null one is a fault.
unfoldable pub next_packet : Backend → PcapNext → Outcome PacketRead
next_packet b answer = if is_open b then done (read_of b.link_type answer) else fault

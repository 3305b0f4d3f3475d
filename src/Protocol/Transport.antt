-- ===== src/Protocol/Transport.antt =====
-- src/core/ProtocolParser.cpp, the transport layer: TCP, UDP, ICMP, ICMPv6, and `decodeTransport`,
-- which chooses among them and the tunnels that ride directly on IP.
pub mod Bounds
use netprobe_cpp.Base.{
  ℕ, ◌+◌, ◌-◌, ◌*◌, ◌/◌, Bool, true, Option, none, some, ◌&&◌, ◌||◌, not, ◌++◌, min, bit_and, ltb,
  leb, ◌==◌, if◌then◌else◌, Bytes, codes, is_empty, text_eq, to_string, Outcome, done, ◌>>=◌, read,
  read_u16, read_u32,
}
use netprobe_cpp.Packet.{ParsedPacket}
use netprobe_cpp.Protocol.Link.{eth_ipv4, eth_ipv6}
use netprobe_cpp.Protocol.Tunnels.{Descend, push_tunnel, decode_gre, decode_vxlan, decode_geneve}

abbrev pub max_tunnel_depth : ℕ
max_tunnel_depth = 4

-- `ipProtocolName`; `none` is the null pointer.
pub ip_protocol_name : ℕ → Option Bytes
ip_protocol_name proto =
    if proto == 2
    then some (codes "IGMP")
    else if proto == 33
    then some (codes "DCCP")
    else if proto == 50
    then some (codes "ESP")
    else if proto == 51
    then some (codes "AH")
    else if proto == 89
    then some (codes "OSPF")
    else if proto == 103
    then some (codes "PIM")
    else if proto == 112
    then some (codes "VRRP")
    else if proto == 132
    then some (codes "SCTP")
    else none

-- Whether a flag bit is set.
pub has_bit : ℕ → ℕ → Bool
has_bit flags mask = not (bit_and flags mask == 0)

pub decode_tcp : Bytes → ℕ → ℕ → ParsedPacket → Outcome ParsedPacket
decode_tcp buffer end offset p =
    if ltb end (offset + 20) then done (record p { protocol = codes "TCP" }) else (do
      src ← read_u16 buffer offset
      dst ← read_u16 buffer (offset + 2)
      seq ← read_u32 buffer (offset + 4)
      flags ← read buffer (offset + 13)
      length_byte ← read buffer (offset + 12)
      let header_length = length_byte / 16 * 4
      let q = record p {
        protocol = codes "TCP";
        src_port = src;
        dst_port = dst;
        tcp_seq = seq;
        tcp_fin = has_bit flags 0x01;
        tcp_syn = has_bit flags 0x02;
        tcp_rst = has_bit flags 0x04;
        tcp_ack = has_bit flags 0x10;
      }
      let payload = offset + header_length
      done (
          if ltb header_length 20 || ltb end payload
          then q
          else if ltb payload end
          then record q { payload_offset = payload; payload_length = end - payload }
          else q))

-- Where a UDP datagram ends: its declared length, unless the capture cuts it short.
pub udp_end : ℕ → ℕ → ℕ → ℕ
udp_end end offset udp_length = min end (if leb 8 udp_length then offset + udp_length else end)

-- The tunnels that are told by a UDP port.
pub decode_udp_tunnel : Descend → Bytes → ℕ → ℕ → ParsedPacket → ℕ → Outcome ParsedPacket
decode_udp_tunnel descend buffer end offset p depth =
    if not (ltb depth max_tunnel_depth)
    then done p
    else if (p.dst_port == 4789) || (p.src_port == 4789)
    then decode_vxlan descend buffer end offset p
    else if (p.dst_port == 6081) || (p.src_port == 6081)
    then decode_geneve descend buffer end offset p
    else done p

pub decode_udp : Descend → Bytes → ℕ → ℕ → ParsedPacket → ℕ → Outcome ParsedPacket
decode_udp descend buffer end offset p depth =
    if ltb end (offset + 8) then done (record p { protocol = codes "UDP" }) else (do
      src ← read_u16 buffer offset
      dst ← read_u16 buffer (offset + 2)
      udp_length ← read_u16 buffer (offset + 4)
      let stop = udp_end end offset udp_length
      let payload = offset + 8
      let q = record p { protocol = codes "UDP"; src_port = src; dst_port = dst }
      if leb stop payload
          then done q
          else decode_udp_tunnel descend buffer stop payload
              (record q { payload_offset = payload; payload_length = stop - payload }) depth)

pub icmp_service : ℕ → Bytes
icmp_service type =
    if type == 0
    then codes "Echo reply"
    else if type == 8
    then codes "Echo request"
    else if type == 3
    then codes "Destination unreachable"
    else if type == 11
    then codes "Time exceeded"
    else if type == 5
    then codes "Redirect"
    else codes "ICMP type " ++ to_string type

pub decode_icmp : Bytes → ℕ → ℕ → ParsedPacket → Outcome ParsedPacket
decode_icmp buffer end offset p =
    if ltb end (offset + 2) then done (record p { protocol = codes "ICMP" }) else (do
      type ← read buffer offset
      done (record p { protocol = codes "ICMP"; service = icmp_service type }))

pub icmpv6_service : ℕ → Bytes
icmpv6_service type =
    if type == 128
    then codes "Echo request"
    else if type == 129
    then codes "Echo reply"
    else if type == 133
    then codes "Router solicitation"
    else if type == 134
    then codes "Router advertisement"
    else if type == 135
    then codes "Neighbor solicitation"
    else if type == 136
    then codes "Neighbor advertisement"
    else if type == 1
    then codes "Destination unreachable"
    else if type == 3
    then codes "Time exceeded"
    else codes "ICMPv6 type " ++ to_string type

pub decode_icmpv6 : Bytes → ℕ → ℕ → ParsedPacket → Outcome ParsedPacket
decode_icmpv6 buffer end offset p =
    if ltb end (offset + 2) then done (record p { protocol = codes "ICMPv6" }) else (do
      type ← read buffer offset
      done (record p { protocol = codes "ICMPv6"; service = icmpv6_service type }))

-- The `if` of the GRE case: what GRE carries keeps its name, and an undecoded payload is "GRE".
pub name_gre : ParsedPacket → ParsedPacket
name_gre p =
    if is_empty p.protocol || text_eq p.protocol (codes "Unknown")
    then record p { protocol = codes "GRE" }
    else p

-- What stands below the `switch` of `decodeTransport`.
pub name_protocol : ℕ → ParsedPacket → ParsedPacket
name_protocol proto p = elim (ip_protocol_name proto) [
  | some name ↦ record p { protocol = name }
  | none ↦ record p { protocol = codes "IP proto " ++ to_string proto }
]

pub decode_transport : Descend → Bytes → ℕ → ℕ → ℕ → ParsedPacket → ℕ → Outcome ParsedPacket
decode_transport descend buffer end offset proto p depth =
    if proto == 6
    then decode_tcp buffer end offset p
    else if proto == 17
    then decode_udp descend buffer end offset p depth
    else if proto == 1
    then decode_icmp buffer end offset p
    else if proto == 58
    then decode_icmpv6 buffer end offset p
    else if (proto == 4) && ltb depth max_tunnel_depth
    then descend end offset eth_ipv4 (push_tunnel p (codes "IP-in-IP"))
    else if (proto == 41) && ltb depth max_tunnel_depth
    then descend end offset eth_ipv6 (push_tunnel p (codes "6in4"))
    else if (proto == 47) && ltb depth max_tunnel_depth
    then (do q ← decode_gre descend buffer end offset p; done (name_gre q))
    else if proto == 50
    then done (record p {
      protocol = codes "ESP";
      service = codes "IPsec (encrypted)";
      encrypted_tunnel = true;
    })
    else done (name_protocol proto p)

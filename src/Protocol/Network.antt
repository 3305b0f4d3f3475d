-- ===== src/Protocol/Network.antt =====
-- src/core/ProtocolParser.cpp, the network layer: `decodeNetwork`, which ties the layers together
-- and which the tunnels enter again.
pub mod Bounds
use netprobe_cpp.Base.{
  ℕ, zero, suc, ◌+◌, ◌-◌, ◌*◌, ◌/◌, ◌%◌, Option, none, some, [], ◌&&◌, ◌||◌, not, ◌++◌, min,
  bit_and, ltb, leb, ◌==◌, if◌then◌else◌, Bytes, codes, text_eq, length, Outcome, done, stuck,
  ◌>>=◌, read, read_u16, read_bytes,
}
use netprobe_cpp.Packet.{ParsedPacket}
use netprobe_cpp.Protocol.Link.{
  eth_ipv4, eth_arp, eth_ipv6, eth_mpls_uni, eth_mpls_mul, eth_pppoe_sess, walk_v6_extensions,
}
use netprobe_cpp.Protocol.Tunnels.{Descend, decode_mpls, decode_pppoe}
use netprobe_cpp.Protocol.Transport.{max_tunnel_depth, decode_transport}

-- The socket library's `inet_ntop` for the two families; `none` is the null pointer.
pub record Inet : Type 0 where
  pub ntop4 : Bytes → Option Bytes
  pub ntop6 : Bytes → Option Bytes

abbrev text_or_empty : Option Bytes → Bytes
text_or_empty none = []
text_or_empty (some s) = s

pub ipv4_to_string : Inet → Bytes → ℕ → Outcome Bytes
ipv4_to_string net buffer i = do
  address ← read_bytes buffer i 4
  done (text_or_empty (net.ntop4 address))

pub ipv6_to_string : Inet → Bytes → ℕ → Outcome Bytes
ipv6_to_string net buffer i = do
  address ← read_bytes buffer i 16
  done (text_or_empty (net.ntop6 address))

-- `etherTypeName`; `none` is the null pointer.
pub ether_type_name : ℕ → Option Bytes
ether_type_name t =
    if t == 0x88cc
    then some (codes "LLDP")
    else if t == 0x888e
    then some (codes "EAPOL")
    else if t == 0x8863
    then some (codes "PPPoE Discovery")
    else if (t == 0x8100) || (t == 0x88a8) || (t == 0x9100)
    then some (codes "VLAN")
    else if t == 0x8137
    then some (codes "IPX")
    else if t == 0x88f7
    then some (codes "PTP")
    else if t == 0x22ea
    then some (codes "SRP")
    else if t == 0x8035
    then some (codes "RARP")
    else if t == 0x9000
    then some (codes "Ethernet Loopback")
    else if t == 0x88a4
    then some (codes "EtherCAT")
    else if t == 0x8892
    then some (codes "PROFINET")
    else none

-- The name of a label-switched or PPPoE frame whose inside was not decoded.
pub name_unknown : Bytes → ParsedPacket → ParsedPacket
name_unknown name p =
    if text_eq p.protocol (codes "Unknown") then record p { protocol = name } else p

pub decode_ipv4 : Inet → Descend → Bytes → ℕ → ℕ → ParsedPacket → ℕ → Outcome ParsedPacket
decode_ipv4 net descend buffer end offset p depth = if ltb end (offset + 20) then done p else (do
  version_hlen ← read buffer offset
  let ihl = version_hlen % 16 * 4
  if not (version_hlen / 16 == 4) || ltb ihl 20 || ltb end (offset + ihl) then done p else (do
    total_length ← read_u16 buffer (offset + 2)
    if ltb total_length ihl then done p else (do
      src ← ipv4_to_string net buffer (offset + 12)
      dst ← ipv4_to_string net buffer (offset + 16)
      flags_frag_off ← read_u16 buffer (offset + 6)
      let q = record p { src_ip = src; dst_ip = dst }
      if not (flags_frag_off % 8192 == 0)
          then done (record q { protocol = codes "IPv4 Fragment" })
          else (do
            proto ← read buffer (offset + 9)
            decode_transport descend buffer (min end (offset + total_length)) (offset + ihl) proto q
                depth))))

-- The IPv6 case from the addresses on, within the packet's end.
pub decode_ipv6_body : Inet → Descend → Bytes → ℕ → ℕ → ParsedPacket → ℕ → Outcome ParsedPacket
decode_ipv6_body net descend buffer packet_end offset p depth = do
  src ← ipv6_to_string net buffer (offset + 8)
  dst ← ipv6_to_string net buffer (offset + 24)
  next_header ← read buffer (offset + 6)
  upper ← walk_v6_extensions (length buffer + 1) buffer packet_end (offset + 40) next_header
  decode_transport descend buffer packet_end upper.position upper.header
      (record p { src_ip = src; dst_ip = dst }) depth

pub decode_ipv6 : Inet → Descend → Bytes → ℕ → ℕ → ParsedPacket → ℕ → Outcome ParsedPacket
decode_ipv6 net descend buffer end offset p depth = if ltb end (offset + 40) then done p else (do
  payload_len ← read_u16 buffer (offset + 4)
  decode_ipv6_body net descend buffer (min end (offset + 40 + payload_len)) offset p depth)

arp_service : ℕ → Bytes
arp_service oper =
    if oper == 1 then codes "ARP request" else if oper == 2 then codes "ARP reply" else []

pub decode_arp : Inet → Bytes → ℕ → ℕ → ParsedPacket → Outcome ParsedPacket
decode_arp net buffer end offset p =
    let q = record p { protocol = codes "ARP" } in
    if ltb end (offset + 8) then done q else (do
      ptype ← read_u16 buffer (offset + 2)
      hlen ← read buffer (offset + 4)
      plen ← read buffer (offset + 5)
      oper ← read_u16 buffer (offset + 6)
      let body = offset + 8
      if (ptype == eth_ipv4) && (plen == 4) && leb (body + 2 * (hlen + plen)) end
          then (do
            src ← ipv4_to_string net buffer (body + hlen)
            dst ← ipv4_to_string net buffer (body + 2 * hlen + plen)
            done (record q { src_ip = src; dst_ip = dst; service = arp_service oper }))
          else done (record q { service = arp_service oper }))

-- The last two cases of `decodeNetwork`.
pub name_ether_type : ℕ → ParsedPacket → ParsedPacket
name_ether_type t p = elim (ether_type_name t) [
  | some name ↦ record p { protocol = name }
  | none ↦ record p { protocol = codes "Non-IP" }
]

-- The body of `decodeNetwork` below its depth test.
pub network_layer : Inet → Descend → Bytes → ℕ → ℕ → ℕ → ParsedPacket → ℕ → Outcome ParsedPacket
network_layer net descend buffer end offset ether_type p depth =
    if (ether_type == eth_mpls_uni) || (ether_type == eth_mpls_mul)
    then (do q ← decode_mpls descend buffer end offset p; done (name_unknown (codes "MPLS") q))
    else if ether_type == eth_pppoe_sess
    then (do q ← decode_pppoe descend buffer end offset p; done (name_unknown (codes "PPPoE") q))
    else if ether_type == eth_ipv4
    then decode_ipv4 net descend buffer end offset p depth
    else if ether_type == eth_ipv6
    then decode_ipv6 net descend buffer end offset p depth
    else if ether_type == eth_arp
    then decode_arp net buffer end offset p
    else done (name_ether_type ether_type p)

-- The first argument is fuel for the nesting of calls: the depth test ends it at depth 5.
pub decode_network : ℕ → Inet → Bytes → ℕ → ℕ → ℕ → ℕ → ParsedPacket → Outcome ParsedPacket
decode_network zero net buffer depth end offset ether_type p = stuck
decode_network (suc fuel) net buffer depth end offset ether_type p =
    if ltb max_tunnel_depth depth
    then done p
    else network_layer net (decode_network fuel net buffer (depth + 1)) buffer end offset ether_type
        p depth

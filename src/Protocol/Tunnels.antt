-- ===== src/Protocol/Tunnels.antt =====
-- src/core/ProtocolParser.cpp, the tunnels: `pushTunnel` and the decoders of GRE, VXLAN, GENEVE,
-- MPLS and PPPoE. Each takes `decodeNetwork` at the next depth, over the same buffer, as
-- `descend`: its arguments are the end, the offset, the EtherType and the packet so far.
pub mod Bounds
use netprobe_cpp.Base.{
  ℕ, zero, suc, ◌+◌, ◌-◌, ◌*◌, ◌/◌, Option, none, some, ◌&&◌, ◌||◌, not, ◌++◌, bit_and, ltb, leb,
  ◌==◌, if◌then◌else◌, Bytes, codes, is_empty, slice, Outcome, done, ◌>>=◌, read, read_u16,
}
use netprobe_cpp.LinkType.{ethernet}
use netprobe_cpp.Packet.{ParsedPacket}
use netprobe_cpp.Protocol.Link.{Start, eth_ipv4, eth_ipv6, eth_tr_bridge, decode_link_layer}

abbrev pub Descend : Type 0
Descend = ℕ → ℕ → ℕ → ParsedPacket → Outcome ParsedPacket

-- The first tunnel also keeps the carrier's addresses.
pub push_tunnel : ParsedPacket → Bytes → ParsedPacket
push_tunnel p name =
    let first_tunnel = is_empty p.outer_src_ip && not (is_empty p.src_ip) in
    record p {
      outer_src_ip = if first_tunnel then p.src_ip else p.outer_src_ip;
      outer_dst_ip = if first_tunnel then p.dst_ip else p.outer_dst_ip;
      tunnel = if is_empty p.tunnel then name else p.tunnel ++ (codes "/" ++ name);
    }

-- What `decodeInnerEthernet` does once the inner link layer is decoded.
pub enter_inner : Descend → ℕ → ℕ → ParsedPacket → Option Start → Outcome ParsedPacket
enter_inner descend end offset p none = done p
enter_inner descend end offset p (some s) = descend end (offset + s.offset) s.ether_type p

pub decode_inner_ethernet : Descend → Bytes → ℕ → ℕ → ParsedPacket → Outcome ParsedPacket
decode_inner_ethernet descend buffer end offset p = if leb end offset then done p else (do
  start ← decode_link_layer (slice buffer offset (end - offset)) ethernet
  enter_inner descend end offset p start)

-- The inner frame or packet that a GRE or GENEVE header announces by an EtherType.
pub enter_ether_type : Descend → Bytes → ℕ → ℕ → ℕ → ParsedPacket → Outcome ParsedPacket
enter_ether_type descend buffer end offset inner_type p =
    if inner_type == eth_tr_bridge
    then decode_inner_ethernet descend buffer end offset p
    else if (inner_type == eth_ipv4) || (inner_type == eth_ipv6)
    then descend end offset inner_type p
    else done p

abbrev gre_field : ℕ → ℕ → ℕ
gre_field flags mask = if bit_and flags mask == 0 then 0 else 4

pub gre_header_length : ℕ → ℕ
gre_header_length flags =
    4 + gre_field flags 0x8000 + gre_field flags 0x2000 + gre_field flags 0x1000

pub decode_gre : Descend → Bytes → ℕ → ℕ → ParsedPacket → Outcome ParsedPacket
decode_gre descend buffer end offset p = if ltb end (offset + 4) then done p else (do
  flags ← read_u16 buffer offset
  inner_type ← read_u16 buffer (offset + 2)
  let inner = offset + gre_header_length flags
  if not (bit_and flags 0x0007 == 0)
      then done p
      else if ltb end inner
      then done p
      else enter_ether_type descend buffer end inner inner_type (push_tunnel p (codes "GRE")))

pub decode_vxlan : Descend → Bytes → ℕ → ℕ → ParsedPacket → Outcome ParsedPacket
decode_vxlan descend buffer end offset p = if ltb end (offset + 8) then done p else (do
  flags ← read buffer offset
  if bit_and flags 0x08 == 0
      then done p
      else decode_inner_ethernet descend buffer end (offset + 8) (push_tunnel p (codes "VXLAN")))

pub decode_geneve : Descend → Bytes → ℕ → ℕ → ParsedPacket → Outcome ParsedPacket
decode_geneve descend buffer end offset p = if ltb end (offset + 8) then done p else (do
  ver_opt_len ← read buffer offset
  inner_type ← read_u16 buffer (offset + 2)
  let inner = offset + 8 + bit_and ver_opt_len 0x3f * 4
  if not (ver_opt_len / 64 == 0)
      then done p
      else if ltb end inner
      then done p
      else enter_ether_type descend buffer end inner inner_type (push_tunnel p (codes "GENEVE")))

-- What stands under the bottom label: bare IP, told by its version nibble.
pub decode_mpls_payload : Descend → Bytes → ℕ → ℕ → ParsedPacket → Outcome ParsedPacket
decode_mpls_payload descend buffer end pos p = if leb end pos then done p else (do
  first ← read buffer pos
  let version = first / 16
  if not (version == 4) && not (version == 6)
      then done p
      else descend end pos (if version == 4 then eth_ipv4 else eth_ipv6)
          (push_tunnel p (codes "MPLS")))

-- The loop over labels; the first argument counts the rounds left.
pub mpls_labels : ℕ → Descend → Bytes → ℕ → ℕ → ParsedPacket → Outcome ParsedPacket
mpls_labels zero descend buffer end pos p = done p
mpls_labels (suc rounds) descend buffer end pos p =
    let next = mpls_labels rounds descend buffer end (pos + 4) p in
    if ltb end (pos + 4) then done p else (do
      label ← read buffer (pos + 2)
      if bit_and label 0x01 == 0 then next else decode_mpls_payload descend buffer end (pos + 4) p)

pub decode_mpls : Descend → Bytes → ℕ → ℕ → ParsedPacket → Outcome ParsedPacket
decode_mpls = mpls_labels 8

pub decode_pppoe : Descend → Bytes → ℕ → ℕ → ParsedPacket → Outcome ParsedPacket
decode_pppoe descend buffer end offset p = if ltb end (offset + 8) then done p else (do
  ppp_protocol ← read_u16 buffer (offset + 6)
  let tunnelled = push_tunnel p (codes "PPPoE")
  if ppp_protocol == 0x0021
      then descend end (offset + 8) eth_ipv4 tunnelled
      else if ppp_protocol == 0x0057
      then descend end (offset + 8) eth_ipv6 tunnelled
      else done p)

-- ===== src/Protocol/Parse.antt =====
-- src/core/ProtocolParser.cpp, `ProtocolParser::parse` and `parseTLS`: the whole parse of a frame.
pub mod Bounds
use netprobe_cpp.Base.{
  ℕ, ◌+◌, ◌-◌, Bool, true, false, Option, none, some, ◌&&◌, ◌||◌, not, min, ltb, ◌==◌,
  if◌then◌else◌, Bytes, codes, length, is_empty, text_eq, slice, Outcome, done, ◌>>=◌,
}
use netprobe_cpp.LinkType.{LinkType, unsupported}
use netprobe_cpp.Packet.{PacketData, ParsedPacket, empty_packet}
use netprobe_cpp.Protocol.Link.{Start, decode_link_layer}
use netprobe_cpp.Protocol.Network.{Inet, decode_network}
use netprobe_cpp.Protocol.Tls.{looks_like_tls_handshake, parse_tls_client_hello}
use netprobe_cpp.Protocol.Http.{parse_http}
use netprobe_cpp.Protocol.Service.{identify_service, classify_tcp_port, classify_udp_port}
use netprobe_cpp.Quic.Keys.{CryptoLibrary}
use netprobe_cpp.Quic.Initial.{looks_like_long_header, extract_initial_sni}

-- What `parseTLS` does with the name of a ClientHello.
pub set_tls_name : Option Bytes → ParsedPacket → ParsedPacket
set_tls_name none p = p
set_tls_name (some sni) p =
    if is_empty sni then p else record p { sni = sni; service = identify_service sni }

pub parse_tls : Bytes → ParsedPacket → Outcome ParsedPacket
parse_tls payload p = do sni ← parse_tls_client_hello payload; done (set_tls_name sni p)

-- The application layer of a TCP payload.
pub inspect_tcp : Bytes → ParsedPacket → Outcome ParsedPacket
inspect_tcp payload p = do
  is_tls ← looks_like_tls_handshake payload
  if is_tls then parse_tls payload p else parse_http payload p

pub set_quic_name : Option Bytes → ParsedPacket → ParsedPacket
set_quic_name none p = p
set_quic_name (some sni) p = record p {
  sni = sni;
  service = if is_empty p.service then identify_service sni else p.service;
}

-- The application layer of a UDP payload.
pub inspect_udp : CryptoLibrary → Bytes → ParsedPacket → Outcome ParsedPacket
inspect_udp lib payload p = do
  is_quic ← looks_like_long_header payload
  if not is_quic then done p else (do
    sni ← extract_initial_sni lib payload
    let q = set_quic_name sni p
    done (record q { service = if is_empty q.service then codes "QUIC" else q.service }))

pub classify_tcp : ParsedPacket → ParsedPacket
classify_tcp p = classify_tcp_port p.src_port (classify_tcp_port p.dst_port p)

pub classify_udp : ParsedPacket → ParsedPacket
classify_udp p = classify_udp_port p.src_port (classify_udp_port p.dst_port p)

-- Deep inspection of the recorded payload, and the labels of the ports.
pub inspect : CryptoLibrary → Bytes → ParsedPacket → Outcome ParsedPacket
inspect lib buffer p =
    let payload =
      slice buffer p.payload_offset (min p.payload_length (length buffer - p.payload_offset)) in
    let has_payload = ltb 0 p.payload_length && ltb p.payload_offset (length buffer) in
    if text_eq p.protocol (codes "TCP")
    then (if has_payload
        then (do q ← inspect_tcp payload p; done (classify_tcp q))
        else done (classify_tcp p))
    else if text_eq p.protocol (codes "UDP")
    then (if has_payload
        then (do q ← inspect_udp lib payload p; done (classify_udp q))
        else done (classify_udp p))
    else done p

-- Encrypted tunnels over UDP are told by the label of their port.
pub mark_encrypted : ParsedPacket → ParsedPacket
mark_encrypted p =
    if text_eq p.service (codes "WireGuard")
      || text_eq p.service (codes "OpenVPN")
      || text_eq p.service (codes "IPsec")
    then record p { encrypted_tunnel = true }
    else p

pub is_unsupported : LinkType → Bool
is_unsupported unsupported = true
is_unsupported _ = false

-- The frame behind the link layer, if there is one. Depths 0 to 5 take fuel 6.
pub parse_from :
    Inet → CryptoLibrary → PacketData → ParsedPacket → Option Start → Outcome ParsedPacket
parse_from net lib raw p none = done (record p {
  protocol =
      if is_unsupported raw.link_type then codes "Unsupported link type" else codes "Truncated";
})
parse_from net lib raw p (some start) = do
  q ← decode_network 6 net raw.payload 0 (length raw.payload) start.offset start.ether_type p
  r ← inspect lib raw.payload q
  done (mark_encrypted r)

pub parse : Inet → CryptoLibrary → PacketData → Outcome ParsedPacket
parse net lib raw =
    let p = record empty_packet {
      timestamp = raw.timestamp;
      length = raw.length;
      protocol = codes "Unknown";
    } in
    if length raw.payload == 0
    then done p
    else (do start ← decode_link_layer raw.payload raw.link_type; parse_from net lib raw p start)

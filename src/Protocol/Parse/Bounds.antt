-- ===== src/Protocol/Parse/Bounds.antt =====
-- `ProtocolParser::parse` of src/core/ProtocolParser.cpp on every frame.
use netprobe_cpp.Base.{
  ◌-◌, ◌≤◌, ◌≡◌, refl, Bool, true, Option, none, some, arith, ◌&&◌, not, min, ltb, ◌==◌,
  if◌then◌else◌, Bytes, codes, length, is_empty, text_eq, slice, done, Ensures, Ensures-done,
  >>=-Ensures, if-Ensures, IfSome,
}
use netprobe_cpp.Packet.{PacketData, ParsedPacket}
use netprobe_cpp.Protocol.Link.{Start, decode_link_layer}
use netprobe_cpp.Protocol.Link.Bounds.{StartsWithin, decode_link_layer-Ensures}
use netprobe_cpp.Protocol.Network.{Inet, decode_network}
use netprobe_cpp.Protocol.Network.Bounds.{decode_network-Ensures}
use netprobe_cpp.Protocol.Tunnels.Bounds.{PayloadWithin}
use netprobe_cpp.Protocol.Tls.{looks_like_tls_handshake, parse_tls_client_hello}
use netprobe_cpp.Protocol.Tls.Bounds.{
  looks_like_tls_handshake-Ensures, parse_tls_client_hello-Ensures, NameWithin,
}
use netprobe_cpp.Protocol.Http.Bounds.{SameTransport, SameTransport-trans, parse_http-Ensures}
use netprobe_cpp.Protocol.Service.{
  tcp_service, udp_service, apply_label, classify_tcp_port, classify_udp_port,
}
use netprobe_cpp.Quic.Keys.{CryptoLibrary}
use netprobe_cpp.Quic.Initial.{looks_like_long_header, extract_initial_sni}
use netprobe_cpp.Quic.Initial.Bounds.{
  BlockSized, looks_like_long_header-Ensures, extract_initial_sni-Ensures,
}
use netprobe_cpp.Protocol.Parse.{
  set_tls_name, parse_tls, inspect_tcp, set_quic_name, inspect_udp, classify_tcp, classify_udp,
  inspect, mark_encrypted, parse_from, parse,
}

abbrev Any {ℓ} : {A : Type ℓ} → A → Type 0
Any a = Unit {0}

set_tls_name-SameTransport :
    (sni : Option Bytes) (p : ParsedPacket) → SameTransport p (set_tls_name sni p)
unfolding set_tls_name
set_tls_name-SameTransport none p = ground arith
set_tls_name-SameTransport (some sni) p = ground arith

inspect_tcp-Ensures :
    (payload : Bytes) (p : ParsedPacket) → Ensures (SameTransport p) (inspect_tcp payload p)
unfolding inspect_tcp parse_tls
inspect_tcp-Ensures payload p =
    >>=-Ensures (λ b. b ≡ true → 5 ≤ length payload) (SameTransport p)
      (looks_like_tls_handshake payload) _ (looks_like_tls_handshake-Ensures payload)
      λ is_tls _.
        if-Ensures (SameTransport p) is_tls _ _
          (λ _.
            >>=-Ensures (IfSome (NameWithin payload)) (SameTransport p)
              (parse_tls_client_hello payload) _ (parse_tls_client_hello-Ensures payload)
              (λ sni _. set_tls_name-SameTransport sni p))
          (λ _. parse_http-Ensures payload p)

quic-SameTransport :
    (sni : Option Bytes) (p : ParsedPacket) (service : Bytes)
    → SameTransport p (record (set_quic_name sni p) { service = service })
unfolding set_quic_name
quic-SameTransport none p service = ground arith
quic-SameTransport (some sni) p service = ground arith

inspect_udp-Ensures :
    (lib : CryptoLibrary) (payload : Bytes) (p : ParsedPacket)
    → BlockSized lib
    → Ensures (SameTransport p) (inspect_udp lib payload p)
unfolding inspect_udp
inspect_udp-Ensures lib payload p b =
    >>=-Ensures Any (SameTransport p) (looks_like_long_header payload) _
      (looks_like_long_header-Ensures payload)
      λ is_quic _.
        if-Ensures (SameTransport p) (not is_quic) _ _ (λ _. (refl, refl, refl, refl, refl))
          λ _.
            >>=-Ensures Any (SameTransport p) (extract_initial_sni lib payload) _
              (extract_initial_sni-Ensures lib payload b)
              λ sni _.
                let q = set_quic_name sni p in
                quic-SameTransport sni p (if is_empty q.service then codes "QUIC" else q.service)

apply_label-SameTransport :
    (l : Option Bytes) (p : ParsedPacket) → SameTransport p (apply_label l p)
unfolding apply_label
apply_label-SameTransport none p = ground arith
apply_label-SameTransport (some s) p = ground arith

classify_tcp-SameTransport : (p : ParsedPacket) → SameTransport p (classify_tcp p)
unfolding classify_tcp classify_tcp_port
classify_tcp-SameTransport p =
    SameTransport-trans p (apply_label (tcp_service p.dst_port) p) (classify_tcp p)
      (apply_label-SameTransport (tcp_service p.dst_port) p)
      (apply_label-SameTransport (tcp_service p.src_port) (apply_label (tcp_service p.dst_port) p))

classify_udp-SameTransport : (p : ParsedPacket) → SameTransport p (classify_udp p)
unfolding classify_udp classify_udp_port
classify_udp-SameTransport p =
    SameTransport-trans p (apply_label (udp_service p.dst_port) p) (classify_udp p)
      (apply_label-SameTransport (udp_service p.dst_port) p)
      (apply_label-SameTransport (udp_service p.src_port) (apply_label (udp_service p.dst_port) p))

inspect-Ensures :
    (lib : CryptoLibrary) (buffer : Bytes) (p : ParsedPacket)
    → BlockSized lib
    → Ensures (SameTransport p) (inspect lib buffer p)
unfolding inspect
inspect-Ensures lib buffer p b =
    if-Ensures (SameTransport p) (text_eq p.protocol (codes "TCP")) _ _
      (λ _.
        if-Ensures (SameTransport p) has_payload _ _
          (λ _.
            >>=-Ensures (SameTransport p) (SameTransport p) (inspect_tcp payload p) _
              (inspect_tcp-Ensures payload p)
              (λ q s. SameTransport-trans p q (classify_tcp q) s (classify_tcp-SameTransport q)))
          (λ _. classify_tcp-SameTransport p))
      λ _.
        if-Ensures (SameTransport p) (text_eq p.protocol (codes "UDP")) _ _
          (λ _.
            if-Ensures (SameTransport p) has_payload _ _
              (λ _.
                >>=-Ensures (SameTransport p) (SameTransport p) (inspect_udp lib payload p) _
                  (inspect_udp-Ensures lib payload p b)
                  (λ q s.
                    SameTransport-trans p q (classify_udp q) s (classify_udp-SameTransport q)))
              (λ _. classify_udp-SameTransport p))
          λ _. (refl, refl, refl, refl, refl)
  where
    payload : Bytes
    payload =
        slice buffer p.payload_offset (min p.payload_length (length buffer - p.payload_offset))

    has_payload : Bool
    has_payload = ltb 0 p.payload_length && ltb p.payload_offset (length buffer)

mark_encrypted-SameTransport : (p : ParsedPacket) → SameTransport p (mark_encrypted p)
unfolding mark_encrypted
mark_encrypted-SameTransport p = ground arith

parse_from-Ensures :
    (net : Inet) (lib : CryptoLibrary) (raw : PacketData) (p : ParsedPacket) (start : Option Start)
    → BlockSized lib
    → PayloadWithin raw.payload p
    → Ensures (PayloadWithin raw.payload) (parse_from net lib raw p start)
unfolding parse_from
parse_from-Ensures net lib raw p none b w = w
parse_from-Ensures net lib raw p (some start) b w =
    >>=-Ensures (PayloadWithin raw.payload) (PayloadWithin raw.payload)
      (decode_network 6 net raw.payload 0 (length raw.payload) start.offset start.ether_type p) _
      (decode_network-Ensures 6 net raw.payload 0 (length raw.payload) start.offset start.ether_type
        p (omega arith) (omega arith) (omega arith) w)
      λ q v.
        >>=-Ensures (SameTransport q) (PayloadWithin raw.payload) (inspect lib raw.payload q) _
          (inspect-Ensures lib raw.payload q b)
          (λ r s. omega (
            arith,
            s.0,
            s.1,
            (mark_encrypted-SameTransport r).0,
            (mark_encrypted-SameTransport r).1,
          ))

-- With an AES that gives blocks of 16 bytes and any `inet_ntop`, `parse` comes to a result on every
-- frame of every link type: no read or write outside of a buffer and no loop or nesting of tunnels
-- without end. The payload that the result records lies inside of the captured bytes.
pub parse_total :
    (net : Inet) (lib : CryptoLibrary) (raw : PacketData)
    → BlockSized lib
    → (p : ParsedPacket) × (parse net lib raw ≡ done p) × PayloadWithin raw.payload p
unfolding parse
parse_total net lib raw b = Ensures-done (PayloadWithin raw.payload) (parse net lib raw) (
    if-Ensures (PayloadWithin raw.payload) (length raw.payload == 0) _ _ (λ _. omega arith)
      λ _.
        >>=-Ensures (StartsWithin raw.payload) (PayloadWithin raw.payload)
          (decode_link_layer raw.payload raw.link_type) _
          (decode_link_layer-Ensures raw.payload raw.link_type)
          λ start _. parse_from-Ensures net lib raw _ start b (omega arith))

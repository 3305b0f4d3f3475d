-- ===== src/Protocol/Transport/Bounds.antt =====
-- Bounds of the transport decoders of src/core/ProtocolParser.cpp.
use netprobe_cpp.Base.{
  ℕ, ◌+◌, ◌-◌, ◌*◌, ◌≤◌, ◌≡◌, arith, codes, length, get_or, Bytes, done, Ensures, >>=-Ensures,
  ◌>>=◌, read, read_u16, read_u32,
}
use netprobe_cpp.Packet.{ParsedPacket}
use netprobe_cpp.Protocol.Link.{eth_ipv4, eth_ipv6}
use netprobe_cpp.Protocol.Tunnels.{Descend, push_tunnel, decode_gre}
use netprobe_cpp.Protocol.Tunnels.Bounds.{
  PayloadWithin, SafeDescend, push_tunnel-payload, decode_gre-Ensures, decode_vxlan-Ensures,
  decode_geneve-Ensures,
}
use netprobe_cpp.Protocol.Transport.{
  decode_tcp, udp_end, decode_udp_tunnel, decode_udp, decode_icmp, decode_icmpv6, name_gre,
  name_protocol, decode_transport,
}

decode_tcp-Ensures :
    (buffer : Bytes) (end offset : ℕ) (p : ParsedPacket)
    → end ≤ length buffer
    → PayloadWithin buffer p
    → Ensures (PayloadWithin buffer) (decode_tcp buffer end offset p)
unfolding decode_tcp read_u32 read_u16 read
decode_tcp-Ensures buffer end offset p h w = ground arith

decode_icmp-Ensures :
    (buffer : Bytes) (end offset : ℕ) (p : ParsedPacket)
    → end ≤ length buffer
    → PayloadWithin buffer p
    → Ensures (PayloadWithin buffer) (decode_icmp buffer end offset p)
unfolding decode_icmp read
decode_icmp-Ensures buffer end offset p h w = ground arith

decode_icmpv6-Ensures :
    (buffer : Bytes) (end offset : ℕ) (p : ParsedPacket)
    → end ≤ length buffer
    → PayloadWithin buffer p
    → Ensures (PayloadWithin buffer) (decode_icmpv6 buffer end offset p)
unfolding decode_icmpv6 read
decode_icmpv6-Ensures buffer end offset p h w = ground arith

pub name_gre-payload :
    (p : ParsedPacket)
    → ((name_gre p).payload_offset ≡ p.payload_offset)
      × ((name_gre p).payload_length ≡ p.payload_length)
unfolding name_gre
name_gre-payload p = ground arith

name_protocol-payload :
    (proto : ℕ) (p : ParsedPacket)
    → ((name_protocol proto p).payload_offset ≡ p.payload_offset)
      × ((name_protocol proto p).payload_length ≡ p.payload_length)
unfolding name_protocol
name_protocol-payload proto p = ground arith

udp_end-le : (end offset udp_length : ℕ) → udp_end end offset udp_length ≤ end
unfolding udp_end
udp_end-le end offset udp_length = omega arith

module _ (descend : Descend) (buffer : Bytes) (safe : SafeDescend buffer descend) where
  decode_udp_tunnel-Ensures :
      (end offset : ℕ) (p : ParsedPacket) (depth : ℕ)
      → end ≤ length buffer
      → PayloadWithin buffer p
      → Ensures (PayloadWithin buffer) (decode_udp_tunnel descend buffer end offset p depth)
  unfolding decode_udp_tunnel
  decode_udp_tunnel-Ensures end offset p depth h w = ground (
    arith,
    decode_vxlan-Ensures descend buffer safe end offset p,
    decode_geneve-Ensures descend buffer safe end offset p,
  )

  decode_udp-Ensures :
      (end offset : ℕ) (p : ParsedPacket) (depth : ℕ)
      → end ≤ length buffer
      → PayloadWithin buffer p
      → Ensures (PayloadWithin buffer) (decode_udp descend buffer end offset p depth)
  unfolding decode_udp read_u16 read
  decode_udp-Ensures end offset p depth h w =
      let stop =
        udp_end end offset
          (get_or buffer (offset + 4) 0 * 256 + get_or buffer (offset + 4 + 1) 0) in
      ground (
        arith,
        udp_end-le end offset
            (get_or buffer (offset + 4) 0 * 256 + get_or buffer (offset + 4 + 1) 0),
        decode_udp_tunnel-Ensures stop (offset + 8)
            (record p {
              protocol = codes "UDP";
              src_port = get_or buffer offset 0 * 256 + get_or buffer (offset + 1) 0;
              dst_port = get_or buffer (offset + 2) 0 * 256 + get_or buffer (offset + 2 + 1) 0;
              payload_offset = offset + 8;
              payload_length = stop - (offset + 8);
            })
            depth,
      )

  -- Whatever the protocol number says, the transport layer is decoded with reads inside of the
  -- packet only, and the payload it records lies inside of the capture.
  pub decode_transport-Ensures :
      (end offset proto : ℕ) (p : ParsedPacket) (depth : ℕ)
      → end ≤ length buffer
      → PayloadWithin buffer p
      → Ensures (PayloadWithin buffer) (decode_transport descend buffer end offset proto p depth)
  unfolding decode_transport
  decode_transport-Ensures end offset proto p depth h w = ground (
    arith,
    decode_tcp-Ensures buffer end offset p h w,
    decode_udp-Ensures end offset p depth h w,
    decode_icmp-Ensures buffer end offset p h w,
    decode_icmpv6-Ensures buffer end offset p h w,
    push_tunnel-payload p (codes "IP-in-IP"),
    push_tunnel-payload p (codes "6in4"),
    safe end offset eth_ipv4 (push_tunnel p (codes "IP-in-IP")) h,
    safe end offset eth_ipv6 (push_tunnel p (codes "6in4")) h,
    gre,
    name_protocol-payload proto p,
  )
    where
      gre :
          Ensures
            (PayloadWithin buffer)
            (decode_gre descend buffer end offset p >>= λ q. done (name_gre q))
      gre =
          >>=-Ensures (PayloadWithin buffer) _ (decode_gre descend buffer end offset p) _
            (decode_gre-Ensures descend buffer safe end offset p h w)
            (λ q v. omega (arith, name_gre-payload q))

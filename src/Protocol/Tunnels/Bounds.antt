-- ===== src/Protocol/Tunnels/Bounds.antt =====
-- What the tunnel decoders of src/core/ProtocolParser.cpp read and record.
use netprobe_cpp.Base.{
  ℕ, zero, suc, ◌+◌, ◌-◌, ◌*◌, ◌≤◌, ◌≡◌, refl, Option, none, some, arith, leb, codes, bit_and,
  length, get_or, slice, Bytes, Ensures, >>=-Ensures, if-Ensures, read, read_u16,
}
use netprobe_cpp.LinkType.{ethernet}
use netprobe_cpp.Packet.{ParsedPacket}
use netprobe_cpp.Protocol.Link.{Start, decode_link_layer, eth_ipv4, eth_ipv6}
use netprobe_cpp.Protocol.Link.Bounds.{StartsWithin, decode_link_layer-Ensures}
use netprobe_cpp.Protocol.Tunnels.{
  Descend, push_tunnel, enter_inner, decode_inner_ethernet, enter_ether_type, gre_header_length,
  decode_gre, decode_vxlan, decode_geneve, decode_mpls_payload, mpls_labels, decode_mpls,
  decode_pppoe,
}

-- The recorded transport payload lies inside the captured bytes.
abbrev pub PayloadWithin : Bytes → ParsedPacket → Type 0
PayloadWithin buffer p = p.payload_offset + p.payload_length ≤ length buffer

-- The decoder of the next depth is safe on every part of the buffer.
abbrev pub SafeDescend : Bytes → Descend → Type 0
SafeDescend buffer descend =
    (end offset ether_type : ℕ) (p : ParsedPacket)
    → end ≤ length buffer
    → PayloadWithin buffer p
    → Ensures (PayloadWithin buffer) (descend end offset ether_type p)

pub push_tunnel-payload :
    (p : ParsedPacket) (name : Bytes)
    → ((push_tunnel p name).payload_offset ≡ p.payload_offset)
      × ((push_tunnel p name).payload_length ≡ p.payload_length)
      × ((push_tunnel p name).protocol ≡ p.protocol)
unfolding push_tunnel
push_tunnel-payload p name = (refl, refl, refl)

module _ (descend : Descend) (buffer : Bytes) (safe : SafeDescend buffer descend) where
  enter_inner-Ensures :
      (end offset : ℕ) (p : ParsedPacket) (start : Option Start)
      → end ≤ length buffer
      → PayloadWithin buffer p
      → Ensures (PayloadWithin buffer) (enter_inner descend end offset p start)
  unfolding enter_inner
  enter_inner-Ensures end offset p none h w = w
  enter_inner-Ensures end offset p (some s) h w = safe end (offset + s.offset) s.ether_type p h w

  decode_inner_ethernet-Ensures :
      (end offset : ℕ) (p : ParsedPacket)
      → end ≤ length buffer
      → PayloadWithin buffer p
      → Ensures (PayloadWithin buffer) (decode_inner_ethernet descend buffer end offset p)
  unfolding decode_inner_ethernet
  decode_inner_ethernet-Ensures end offset p h w =
      if-Ensures (PayloadWithin buffer) (leb end offset) _ _ (λ _. w)
        λ _.
          >>=-Ensures (StartsWithin inner) _ (decode_link_layer inner ethernet) _
            (decode_link_layer-Ensures inner ethernet)
            (λ start _. enter_inner-Ensures end offset p start h w)
    where
      inner : Bytes
      inner = slice buffer offset (end - offset)

  enter_ether_type-Ensures :
      (end offset inner_type : ℕ) (p : ParsedPacket)
      → end ≤ length buffer
      → PayloadWithin buffer p
      → Ensures (PayloadWithin buffer) (enter_ether_type descend buffer end offset inner_type p)
  unfolding enter_ether_type
  enter_ether_type-Ensures end offset inner_type p h w =
      ground (arith, decode_inner_ethernet-Ensures end offset p, safe end offset inner_type p)

  pub decode_gre-Ensures :
      (end offset : ℕ) (p : ParsedPacket)
      → end ≤ length buffer
      → PayloadWithin buffer p
      → Ensures (PayloadWithin buffer) (decode_gre descend buffer end offset p)
  unfolding decode_gre read_u16 read
  decode_gre-Ensures end offset p h w = ground (
    arith,
    push_tunnel-payload p (codes "GRE"),
    enter_ether_type-Ensures end
        (offset + gre_header_length (get_or buffer offset 0 * 256 + get_or buffer (offset + 1) 0))
        (get_or buffer (offset + 2) 0 * 256 + get_or buffer (offset + 2 + 1) 0)
        (push_tunnel p (codes "GRE")),
  )

  pub decode_vxlan-Ensures :
      (end offset : ℕ) (p : ParsedPacket)
      → end ≤ length buffer
      → PayloadWithin buffer p
      → Ensures (PayloadWithin buffer) (decode_vxlan descend buffer end offset p)
  unfolding decode_vxlan read
  decode_vxlan-Ensures end offset p h w = ground (
    arith,
    push_tunnel-payload p (codes "VXLAN"),
    decode_inner_ethernet-Ensures end (offset + 8) (push_tunnel p (codes "VXLAN")),
  )

  pub decode_geneve-Ensures :
      (end offset : ℕ) (p : ParsedPacket)
      → end ≤ length buffer
      → PayloadWithin buffer p
      → Ensures (PayloadWithin buffer) (decode_geneve descend buffer end offset p)
  unfolding decode_geneve read_u16 read
  decode_geneve-Ensures end offset p h w = ground (
    arith,
    push_tunnel-payload p (codes "GENEVE"),
    enter_ether_type-Ensures end (offset + 8 + bit_and (get_or buffer offset 0) 0x3f * 4)
        (get_or buffer (offset + 2) 0 * 256 + get_or buffer (offset + 2 + 1) 0)
        (push_tunnel p (codes "GENEVE")),
  )

  decode_mpls_payload-Ensures :
      (end pos : ℕ) (p : ParsedPacket)
      → end ≤ length buffer
      → PayloadWithin buffer p
      → Ensures (PayloadWithin buffer) (decode_mpls_payload descend buffer end pos p)
  unfolding decode_mpls_payload read
  decode_mpls_payload-Ensures end pos p h w = ground (
    arith,
    push_tunnel-payload p (codes "MPLS"),
    safe end pos eth_ipv4 (push_tunnel p (codes "MPLS")),
    safe end pos eth_ipv6 (push_tunnel p (codes "MPLS")),
  )

  mpls_labels-Ensures :
      (rounds end pos : ℕ) (p : ParsedPacket)
      → end ≤ length buffer
      → PayloadWithin buffer p
      → Ensures (PayloadWithin buffer) (mpls_labels rounds descend buffer end pos p)
  unfolding mpls_labels read
  mpls_labels-Ensures zero end pos p h w = w
  mpls_labels-Ensures (suc rounds) end pos p h w = ground (
    arith,
    mpls_labels-Ensures rounds end (pos + 4) p h w,
    decode_mpls_payload-Ensures end (pos + 4) p,
  )

  pub decode_mpls-Ensures :
      (end offset : ℕ) (p : ParsedPacket)
      → end ≤ length buffer
      → PayloadWithin buffer p
      → Ensures (PayloadWithin buffer) (decode_mpls descend buffer end offset p)
  unfolding decode_mpls
  decode_mpls-Ensures end offset p h w = mpls_labels-Ensures 8 end offset p h w

  pub decode_pppoe-Ensures :
      (end offset : ℕ) (p : ParsedPacket)
      → end ≤ length buffer
      → PayloadWithin buffer p
      → Ensures (PayloadWithin buffer) (decode_pppoe descend buffer end offset p)
  unfolding decode_pppoe read_u16 read
  decode_pppoe-Ensures end offset p h w = ground (
    arith,
    push_tunnel-payload p (codes "PPPoE"),
    safe end (offset + 8) eth_ipv4 (push_tunnel p (codes "PPPoE")),
    safe end (offset + 8) eth_ipv6 (push_tunnel p (codes "PPPoE")),
  )

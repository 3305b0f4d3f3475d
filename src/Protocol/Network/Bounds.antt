-- ===== src/Protocol/Network/Bounds.antt =====
-- Bounds of the network layer of src/core/ProtocolParser.cpp and of its descent into tunnels.
use netprobe_cpp.Base.{
  ℕ, zero, suc, ◌+◌, ◌*◌, ◌≤◌, ◌≡◌, arith, min, ltb, codes, length, get_or, Bytes, Outcome, done,
  Ensures, >>=-Ensures, if-Ensures, ◌>>=◌, read, read_u16, read_bytes, read_lem,
}
use netprobe_cpp.Packet.{ParsedPacket}
use netprobe_cpp.Protocol.Link.{walk_v6_extensions}
use netprobe_cpp.Protocol.Link.Bounds.{walk_v6_extensions-Ensures}
use netprobe_cpp.Protocol.Tunnels.{Descend, decode_mpls, decode_pppoe}
use netprobe_cpp.Protocol.Tunnels.Bounds.{
  PayloadWithin, SafeDescend, decode_mpls-Ensures, decode_pppoe-Ensures,
}
use netprobe_cpp.Protocol.Transport.{max_tunnel_depth}
use netprobe_cpp.Protocol.Transport.Bounds.{decode_transport-Ensures}
use netprobe_cpp.Protocol.Network.{
  Inet, ipv4_to_string, ipv6_to_string, name_unknown, decode_ipv4, decode_ipv6_body, decode_ipv6,
  decode_arp, name_ether_type, network_layer, decode_network,
}

-- A claim with no content beside the run's end.
abbrev pub Any {ℓ} : {A : Type ℓ} → A → Type 0
Any a = Unit {0}

pub ipv4_to_string-Ensures :
    (net : Inet) (buffer : Bytes) (i : ℕ)
    → i + 4 ≤ length buffer
    → Ensures Any (ipv4_to_string net buffer i)
unfolding ipv4_to_string read_bytes
ipv4_to_string-Ensures net buffer i h = ground arith

pub ipv6_to_string-Ensures :
    (net : Inet) (buffer : Bytes) (i : ℕ)
    → i + 16 ≤ length buffer
    → Ensures Any (ipv6_to_string net buffer i)
unfolding ipv6_to_string read_bytes
ipv6_to_string-Ensures net buffer i h = ground arith

name_unknown-payload :
    (name : Bytes) (p : ParsedPacket)
    → ((name_unknown name p).payload_offset ≡ p.payload_offset)
      × ((name_unknown name p).payload_length ≡ p.payload_length)
unfolding name_unknown
name_unknown-payload name p = ground arith

name_ether_type-payload :
    (t : ℕ) (p : ParsedPacket)
    → ((name_ether_type t p).payload_offset ≡ p.payload_offset)
      × ((name_ether_type t p).payload_length ≡ p.payload_length)
unfolding name_ether_type
name_ether_type-payload t p = ground arith

decode_arp-Ensures :
    (net : Inet) (buffer : Bytes) (end offset : ℕ) (p : ParsedPacket)
    → end ≤ length buffer
    → PayloadWithin buffer p
    → Ensures (PayloadWithin buffer) (decode_arp net buffer end offset p)
unfolding decode_arp read_u16 read ipv4_to_string read_bytes
decode_arp-Ensures net buffer end offset p h w = ground arith

module _ (net : Inet) (descend : Descend) (buffer : Bytes) (safe : SafeDescend buffer descend) where
  decode_ipv4-Ensures :
      (end offset : ℕ) (p : ParsedPacket) (depth : ℕ)
      → end ≤ length buffer
      → PayloadWithin buffer p
      → Ensures (PayloadWithin buffer) (decode_ipv4 net descend buffer end offset p depth)
  unfolding decode_ipv4 read_u16 read ipv4_to_string read_bytes
  decode_ipv4-Ensures end offset p depth h w =
      grind (arith, decode_transport-Ensures descend buffer safe)

  decode_ipv6_body-Ensures :
      (packet_end offset : ℕ) (p : ParsedPacket) (depth : ℕ)
      → packet_end ≤ length buffer
      → offset + 40 ≤ packet_end
      → PayloadWithin buffer p
      → Ensures
          (PayloadWithin buffer)
          (decode_ipv6_body net descend buffer packet_end offset p depth)
  unfolding decode_ipv6_body
  decode_ipv6_body-Ensures packet_end offset p depth h k w =
      >>=-Ensures Any _ (ipv6_to_string net buffer (offset + 8)) _
        (ipv6_to_string-Ensures net buffer (offset + 8) (omega arith))
        λ src _.
          >>=-Ensures Any _ (ipv6_to_string net buffer (offset + 24)) _
            (ipv6_to_string-Ensures net buffer (offset + 24) (omega arith))
            λ dst _. rw (read_lem buffer (offset + 6) (omega arith)) (
              >>=-Ensures (λ n. n.position ≤ packet_end) _
                (walk_v6_extensions (length buffer + 1) buffer packet_end (offset + 40)
                  (get_or buffer (offset + 6) 0))
                _
                (walk_v6_extensions-Ensures (length buffer + 1) buffer packet_end (offset + 40) _ h
                  k (omega arith))
                λ upper _.
                  decode_transport-Ensures descend buffer safe packet_end upper.position
                    upper.header (record p { src_ip = src; dst_ip = dst }) depth h w)

  decode_ipv6-Ensures :
      (end offset : ℕ) (p : ParsedPacket) (depth : ℕ)
      → end ≤ length buffer
      → PayloadWithin buffer p
      → Ensures (PayloadWithin buffer) (decode_ipv6 net descend buffer end offset p depth)
  unfolding decode_ipv6 read_u16 read
  decode_ipv6-Ensures end offset p depth h w = ground (
    arith,
    decode_ipv6_body-Ensures
        (min end
          (offset + 40 + (get_or buffer (offset + 4) 0 * 256 + get_or buffer (offset + 4 + 1) 0)))
        offset p depth,
  )

  network_layer-Ensures :
      (end offset ether_type : ℕ) (p : ParsedPacket) (depth : ℕ)
      → end ≤ length buffer
      → PayloadWithin buffer p
      → Ensures
          (PayloadWithin buffer)
          (network_layer net descend buffer end offset ether_type p depth)
  unfolding network_layer
  network_layer-Ensures end offset ether_type p depth h w = ground (
    arith,
    named (codes "MPLS") (decode_mpls descend buffer end offset p)
        (decode_mpls-Ensures descend buffer safe end offset p h w),
    named (codes "PPPoE") (decode_pppoe descend buffer end offset p)
        (decode_pppoe-Ensures descend buffer safe end offset p h w),
    decode_ipv4-Ensures end offset p depth h w,
    decode_ipv6-Ensures end offset p depth h w,
    decode_arp-Ensures net buffer end offset p h w,
    name_ether_type-payload ether_type p,
  )
    where
      named :
          (name : Bytes) (m : Outcome ParsedPacket)
          → Ensures (PayloadWithin buffer) m
          → Ensures (PayloadWithin buffer) (m >>= λ q. done (name_unknown name q))
      named name m e =
          >>=-Ensures (PayloadWithin buffer) _ m _ e
            (λ q v. omega (arith, name_unknown-payload name q))

-- From any depth, with fuel for the depths that are left, the network layer and the tunnels below
-- it are decoded to the end with no read outside of the capture, and the recorded payload lies
-- inside of it.
pub decode_network-Ensures :
    (fuel : ℕ) (net : Inet) (buffer : Bytes) (depth end offset ether_type : ℕ) (p : ParsedPacket)
    → 6 ≤ fuel + depth
    → 1 ≤ fuel
    → end ≤ length buffer
    → PayloadWithin buffer p
    → Ensures (PayloadWithin buffer) (decode_network fuel net buffer depth end offset ether_type p)
unfolding decode_network
decode_network-Ensures zero net buffer depth end offset ether_type p f one h w =
    absurd (omega arith)
decode_network-Ensures (suc fuel) net buffer depth end offset ether_type p f one h w =
    if-Ensures (PayloadWithin buffer) (ltb max_tunnel_depth depth) _ _ (λ _. w)
      λ shallow.
        network_layer-Ensures net (decode_network fuel net buffer (depth + 1)) buffer
          (λ end' offset' type' q h' w'.
            decode_network-Ensures fuel net buffer (depth + 1) end' offset' type' q (omega arith)
              (ground arith) h' w')
          end offset ether_type p depth h w

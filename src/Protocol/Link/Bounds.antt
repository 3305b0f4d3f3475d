-- ===== src/Protocol/Link/Bounds.antt =====
-- Bounds of the link layer and of the IPv6 extension headers (src/core/ProtocolParser.cpp).
use netprobe_cpp.Base.{ℕ, zero, suc, ◌+◌, ◌*◌, ◌≤◌, ◌<◌, Option, none, some, arith, length, Bytes}
use netprobe_cpp.Base.{get_or, >>=-Ensures, read, read_u16, read_u32, Ensures}
use netprobe_cpp.LinkType.{LinkType, ethernet, raw_ip, null_loopback, loop}
use netprobe_cpp.Protocol.Link.{
  Start, Next, ether_type_for_ip_version, ether_type_for_family, skip_vlan_tags, loopback_start,
  first_of_two, decode_link_layer, sized_extension, walk_v6_extension, walk_v6_extensions,
}

-- The network layer starts inside the buffer, or at its end.
abbrev pub StartsWithin : Bytes → Option Start → Type 0
StartsWithin buffer none = Unit {0}
StartsWithin buffer (some s) = s.offset ≤ length buffer

ether_type_for_ip_version-Ensures :
    (buffer : Bytes) (at : ℕ) → Ensures (StartsWithin buffer) (ether_type_for_ip_version buffer at)
unfolding ether_type_for_ip_version read
ether_type_for_ip_version-Ensures buffer at = ground arith

skip_vlan_tags-Ensures :
    (fuel : ℕ) (buffer : Bytes) (offset ether_type : ℕ)
    → offset ≤ length buffer
    → length buffer < offset + 4 * fuel
    → Ensures (StartsWithin buffer) (skip_vlan_tags fuel buffer offset ether_type)
unfolding skip_vlan_tags read_u16 read
skip_vlan_tags-Ensures zero buffer offset ether_type h k = absurd (omega arith)
skip_vlan_tags-Ensures (suc fuel) buffer offset ether_type h k = ground (
  arith,
  skip_vlan_tags-Ensures fuel buffer (offset + 4)
      (get_or buffer (offset + 2) 0 * 256 + get_or buffer (offset + 2 + 1) 0),
)

loopback_start-Ensures :
    (buffer : Bytes) (family : Option ℕ)
    → 4 ≤ length buffer
    → Ensures (StartsWithin buffer) (loopback_start buffer family)
unfolding loopback_start
loopback_start-Ensures buffer (some t) h = h
loopback_start-Ensures buffer none h = ether_type_for_ip_version-Ensures buffer 4

-- On every buffer and link type the link layer is decoded with no read outside of the buffer and
-- in finitely many steps, and the network layer it finds starts inside the buffer or at its end.
pub decode_link_layer-Ensures :
    (buffer : Bytes) (link : LinkType)
    → Ensures (StartsWithin buffer) (decode_link_layer buffer link)
unfolding decode_link_layer read_u32 read_u16 read
decode_link_layer-Ensures buffer ethernet = ground (
  arith,
  skip_vlan_tags-Ensures (length buffer) buffer 14 (get_or buffer 12 0 * 256 + get_or buffer 13 0),
)
decode_link_layer-Ensures buffer raw_ip = ether_type_for_ip_version-Ensures buffer 0
decode_link_layer-Ensures buffer null_loopback =
    let le =
      get_or buffer 0 0
      + get_or buffer 1 0 * 256
      + get_or buffer 2 0 * 65536
      + get_or buffer 3 0 * 16777216 in
    let be =
      (get_or buffer 0 0 * 256 + get_or buffer 1 0) * 65536
      + (get_or buffer 2 0 * 256 + get_or buffer 3 0) in
    ground (
      arith,
      loopback_start-Ensures buffer
          (first_of_two (ether_type_for_family le) (ether_type_for_family be)),
    )
decode_link_layer-Ensures buffer loop = ground (
  arith,
  loopback_start-Ensures buffer (
      ether_type_for_family (
        (get_or buffer 0 0 * 256 + get_or buffer 1 0) * 65536
        + (get_or buffer 2 0 * 256 + get_or buffer 3 0))),
)
decode_link_layer-Ensures buffer _ = ground arith

-- A step over an extension header goes on by 8 bytes at least, and stays inside the packet.
abbrev pub Advances : ℕ → ℕ → Option Next → Type 0
Advances size pos none = Unit {0}
Advances size pos (some n) = (pos + 8 ≤ n.position) × (n.position ≤ size)

walk_v6_extension-Ensures :
    (nh : ℕ) (buffer : Bytes) (size pos : ℕ)
    → size ≤ length buffer
    → Ensures (Advances size pos) (walk_v6_extension nh buffer size pos)
unfolding walk_v6_extension sized_extension read
walk_v6_extension-Ensures nh buffer size pos h = ground arith

-- With fuel for every 8 bytes left, the loop ends, reads inside the packet only, and leaves the
-- position inside the packet.
pub walk_v6_extensions-Ensures :
    (fuel : ℕ) (buffer : Bytes) (size pos nh : ℕ)
    → size ≤ length buffer
    → pos ≤ size
    → size < pos + 8 * fuel
    → Ensures (λ n. n.position ≤ size) (walk_v6_extensions fuel buffer size pos nh)
unfolding walk_v6_extensions
walk_v6_extensions-Ensures zero buffer size pos nh h k l = absurd (omega arith)
walk_v6_extensions-Ensures (suc fuel) buffer size pos nh h k l =
    >>=-Ensures (Advances size pos) _ (walk_v6_extension nh buffer size pos) _
      (walk_v6_extension-Ensures nh buffer size pos h)
      (elim [
        | none ↦ λ _. k
        | some n ↦
            λ a. walk_v6_extensions-Ensures fuel buffer size n.position n.header h a.1 (omega arith)
      ])

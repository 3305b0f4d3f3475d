-- ===== src/Protocol/Link.antt =====
-- src/core/ProtocolParser.cpp, the link layer: `decodeLinkLayer`, and the headers of
-- IPv6 extensions, `walkV6Extension`.
pub mod Bounds
use netprobe_cpp.Base.{
  ℕ, zero, suc, ◌+◌, ◌*◌, ◌/◌, ◌≤◌, ◌<◌, ◌≡◌, Bool, true, false, ◌||◌, Option, none, some, arith,
  ltb, leb, ◌==◌, if◌then◌else◌, length, Bytes,
}
use netprobe_cpp.Base.{
  get_or, >>=-Ensures, Outcome, done, fault, stuck, ◌>>=◌, read, read_u16, read_u32, Ensures,
}
use netprobe_cpp.LinkType.{
  LinkType, ethernet, raw_ip, null_loopback, loop, linux_sll, linux_sll2, ipv4, ipv6, unsupported,
}

abbrev pub eth_ipv4 : ℕ
eth_ipv4 = 0x0800

abbrev pub eth_arp : ℕ
eth_arp = 0x0806

abbrev pub eth_ipv6 : ℕ
eth_ipv6 = 0x86dd

abbrev pub eth_mpls_uni : ℕ
eth_mpls_uni = 0x8847

abbrev pub eth_mpls_mul : ℕ
eth_mpls_mul = 0x8848

abbrev pub eth_pppoe_sess : ℕ
eth_pppoe_sess = 0x8864

abbrev pub eth_tr_bridge : ℕ
eth_tr_bridge = 0x6558

-- Where the network layer starts, and the EtherType of what stands there.
pub record Start : Type 0 where
  pub offset : ℕ
  pub ether_type : ℕ

-- The lambda `etherTypeForIpVersion`.
pub ether_type_for_ip_version : Bytes → ℕ → Outcome (Option Start)
ether_type_for_ip_version buffer at = if leb (length buffer) at then done none else (do
  first ← read buffer at
  done (
      if first / 16 == 4
      then some (record { offset = at; ether_type = eth_ipv4 })
      else if first / 16 == 6
      then some (record { offset = at; ether_type = eth_ipv6 })
      else none))

is_vlan_tag : ℕ → Bool
is_vlan_tag t = (t == 0x8100) || (t == 0x88a8) || (t == 0x9100)

-- The `while` loop over stacked VLAN tags, on fuel.
pub skip_vlan_tags : ℕ → Bytes → ℕ → ℕ → Outcome (Option Start)
skip_vlan_tags zero buffer offset ether_type = stuck
skip_vlan_tags (suc fuel) buffer offset ether_type =
    let next =
      read_u16 buffer (offset + 2) >>= λ inner. skip_vlan_tags fuel buffer (offset + 4) inner in
    if is_vlan_tag ether_type
    then (if ltb (length buffer) (offset + 4) then done none else next)
    else done (some (record { offset = offset; ether_type = ether_type }))

is_inet6_family : ℕ → Bool
is_inet6_family af = (af == 10) || (af == 23) || (af == 24) || (af == 28) || (af == 30)

-- One round over the candidates for an address family.
pub ether_type_for_family : ℕ → Option ℕ
ether_type_for_family af =
    if af == 2 then some eth_ipv4 else if is_inet6_family af then some eth_ipv6 else none

-- What a loopback header's families say, the version nibble behind it if they say nothing.
pub loopback_start : Bytes → Option ℕ → Outcome (Option Start)
loopback_start buffer (some t) = done (some (record { offset = 4; ether_type = t }))
loopback_start buffer none = ether_type_for_ip_version buffer 4

pub first_of_two : Option ℕ → Option ℕ → Option ℕ
first_of_two (some t) other = some t
first_of_two none other = other

pub decode_link_layer : Bytes → LinkType → Outcome (Option Start)
decode_link_layer buffer ethernet =
    if ltb (length buffer) 14
    then done none
    else (do t ← read_u16 buffer 12; skip_vlan_tags (length buffer) buffer 14 t)
decode_link_layer buffer linux_sll =
    if ltb (length buffer) 16
    then done none
    else (do t ← read_u16 buffer 14; done (some (record { offset = 16; ether_type = t })))
decode_link_layer buffer linux_sll2 =
    if ltb (length buffer) 20
    then done none
    else (do t ← read_u16 buffer 0; done (some (record { offset = 20; ether_type = t })))
decode_link_layer buffer null_loopback = if ltb (length buffer) 4 then done none else (do
  b0 ← read buffer 0
  b1 ← read buffer 1
  b2 ← read buffer 2
  b3 ← read buffer 3
  let le = b0 + b1 * 256 + b2 * 65536 + b3 * 16777216
  be ← read_u32 buffer 0
  loopback_start buffer (first_of_two (ether_type_for_family le) (ether_type_for_family be)))
decode_link_layer buffer loop =
    if ltb (length buffer) 4
    then done none
    else (do af ← read_u32 buffer 0; loopback_start buffer (ether_type_for_family af))
decode_link_layer buffer raw_ip = ether_type_for_ip_version buffer 0
decode_link_layer buffer ipv4 = done (some (record { offset = 0; ether_type = eth_ipv4 }))
decode_link_layer buffer ipv6 = done (some (record { offset = 0; ether_type = eth_ipv6 }))
decode_link_layer buffer unsupported = done none

-- Where an IPv6 extension header leads: the position behind it, and the next header's number.
pub record Next : Type 0 where
  pub position : ℕ
  pub header : ℕ

-- An extension header whose second byte counts its units of length, less `extra`.
pub sized_extension : Bytes → ℕ → ℕ → ℕ → ℕ → Outcome (Option Next)
sized_extension buffer size pos extra unit = if ltb size (pos + 2) then done none else (do
  new_nh ← read buffer pos
  count ← read buffer (pos + 1)
  let behind = pos + (count + extra) * unit
  done (if ltb size behind then none else some (record { position = behind; header = new_nh })))

-- `none` is the result `false`: the header is no extension header, or it is cut off.
pub walk_v6_extension : ℕ → Bytes → ℕ → ℕ → Outcome (Option Next)
walk_v6_extension nh buffer size pos =
    if (nh == 0) || (nh == 43) || (nh == 60) || (nh == 135)
    then sized_extension buffer size pos 1 8
    else if nh == 44
    then (if ltb size (pos + 8) then done none else (do
      new_nh ← read buffer pos
      done (some (record { position = pos + 8; header = new_nh }))))
    else if nh == 51
    then sized_extension buffer size pos 2 4
    else done none

-- The `while (true)` loop of `decodeNetwork` over extension headers, on fuel.
pub walk_v6_extensions : ℕ → Bytes → ℕ → ℕ → ℕ → Outcome Next
walk_v6_extensions zero buffer size pos nh = stuck
walk_v6_extensions (suc fuel) buffer size pos nh = do
  step ← walk_v6_extension nh buffer size pos
  elim step [
    | none ↦ done (record { position = pos; header = nh })
    | some n ↦ walk_v6_extensions fuel buffer size n.position n.header
  ]

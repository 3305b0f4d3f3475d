-- ===== src/Flow/Key.antt =====
-- src/core/FlowAggregator.cpp, `isLikelyServerPort`, `keyFor`, `matches` and `isDownstream`.
pub mod Canonical
use netprobe_cpp.Base.{
  ℕ, Bool, false, true, Option, none, some, ◌&&◌, ◌||◌, not, ltb, leb, ◌==◌, if◌then◌else◌, Bytes,
  codes, is_empty, text_eq, text_le,
}
use netprobe_cpp.Packet.{ParsedPacket}

pub record FlowKey : Type 0 where
  pub src_ip : Bytes
  pub dst_ip : Bytes
  pub src_port : ℕ
  pub dst_port : ℕ
  pub protocol : Bytes

-- The defaulted `operator==`.
unfoldable pub key_eq : FlowKey → FlowKey → Bool
key_eq a b =
    text_eq a.src_ip b.src_ip
    && text_eq a.dst_ip b.dst_ip
    && (a.src_port == b.src_port)
    && (a.dst_port == b.dst_port)
    && text_eq a.protocol b.protocol

pub is_likely_server_port : ℕ → Bool
is_likely_server_port port =
    (port == 1194)
    || (port == 1433)
    || (port == 3306)
    || (port == 3478)
    || (port == 5222)
    || (port == 5432)
    || (port == 5900)
    || (port == 6379)
    || (port == 6443)
    || (port == 8080)
    || (port == 8443)
    || (port == 9092)
    || (port == 9200)
    || (port == 27017)
    || (port == 51820)
    || (ltb 0 port && leb port 1024)

pub forward : ParsedPacket → FlowKey
forward p = record {
  src_ip = p.src_ip;
  dst_ip = p.dst_ip;
  src_port = p.src_port;
  dst_port = p.dst_port;
  protocol = p.protocol;
}

pub reversed : ParsedPacket → FlowKey
reversed p = record {
  src_ip = p.dst_ip;
  dst_ip = p.src_ip;
  src_port = p.dst_port;
  dst_port = p.src_port;
  protocol = p.protocol;
}

-- `std::tie(srcIP, srcPort) <= std::tie(dstIP, dstPort)`.
pub endpoint_le : Bytes → ℕ → Bytes → ℕ → Bool
endpoint_le ip port ip' port' = if text_eq ip ip' then leb port port' else text_le ip ip'

pub ordered_key : ParsedPacket → FlowKey
ordered_key p =
    let src_is_server =
      is_likely_server_port p.src_port && not (is_likely_server_port p.dst_port) in
    let dst_is_server =
      is_likely_server_port p.dst_port && not (is_likely_server_port p.src_port) in
    if src_is_server
    then reversed p
    else if dst_is_server
    then forward p
    else if endpoint_le p.src_ip p.src_port p.dst_ip p.dst_port
    then forward p
    else reversed p

pub key_for : ParsedPacket → Option FlowKey
key_for p =
    if is_empty p.src_ip
      || is_empty p.dst_ip
      || not (text_eq p.protocol (codes "TCP") || text_eq p.protocol (codes "UDP"))
    then none
    else some (ordered_key p)

key_matches : Option FlowKey → FlowKey → Bool
key_matches none key = false
key_matches (some k) key = key_eq k key

pub matches : ParsedPacket → FlowKey → Bool
matches p key = key_matches (key_for p) key

unfoldable pub is_downstream : ParsedPacket → FlowKey → Bool
is_downstream p key = text_eq p.src_ip key.dst_ip && (p.src_port == key.dst_port)

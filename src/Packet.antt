-- ===== src/Packet.antt =====
-- src/core/PacketData.hpp and src/core/ParsedPacket.hpp: a captured frame, and what a parse
-- makes of it. `payload_summary` is written nowhere in the program and is left out.
use netprobe_cpp.Base.{ℕ, Bool, false, [], ℤ, pos, Bytes}
use netprobe_cpp.LinkType.{LinkType}

pub record PacketData : Type 0 where
  pub timestamp : ℤ
  pub length : ℕ
  pub captured_length : ℕ
  pub link_type : LinkType
  pub payload : Bytes

pub record ParsedPacket : Type 0 where
  pub timestamp : ℤ
  pub src_ip : Bytes
  pub dst_ip : Bytes
  pub src_port : ℕ
  pub dst_port : ℕ
  pub protocol : Bytes
  pub length : ℕ
  pub tcp_syn : Bool
  pub tcp_ack : Bool
  pub tcp_fin : Bool
  pub tcp_rst : Bool
  pub tcp_seq : ℕ
  pub payload_offset : ℕ
  pub payload_length : ℕ
  pub tunnel : Bytes
  pub outer_src_ip : Bytes
  pub outer_dst_ip : Bytes
  pub encrypted_tunnel : Bool
  pub sni : Bytes
  pub service : Bytes
  pub hostname : Bytes
  pub info : Bytes

abbrev pub empty_packet : ParsedPacket
empty_packet = record {
  timestamp = pos 0;
  src_ip = [];
  dst_ip = [];
  src_port = 0;
  dst_port = 0;
  protocol = [];
  length = 0;
  tcp_syn = false;
  tcp_ack = false;
  tcp_fin = false;
  tcp_rst = false;
  tcp_seq = 0;
  payload_offset = 0;
  payload_length = 0;
  tunnel = [];
  outer_src_ip = [];
  outer_dst_ip = [];
  encrypted_tunnel = false;
  sni = [];
  service = [];
  hostname = [];
  info = [];
}

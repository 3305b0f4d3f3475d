-- ===== src/Tests/Data.antt =====
-- Frames, packets and library functions for the tests.
use netprobe_cpp.Base.{some, [], ◌∷◌, ◌++◌, replicate, Bytes, codes, pos, refl}
use netprobe_cpp.LinkType.{ethernet}
use netprobe_cpp.Packet.{PacketData, ParsedPacket, empty_packet}
use netprobe_cpp.Protocol.Network.{Inet}
use netprobe_cpp.Quic.Keys.{CryptoLibrary}
use netprobe_cpp.Quic.Initial.Bounds.{BlockSized}

-- Addresses are printed as their bytes.
abbrev pub plain_inet : Inet
plain_inet = record { ntop4 = λ b. some b; ntop6 = λ b. some b }

abbrev pub zero_crypto : CryptoLibrary
zero_crypto = record {
  hkdf_extract = λ salt key. some (replicate 32 0);
  hkdf_expand = λ key info size. some (replicate size 0);
  aes_ecb = λ key block. some (replicate 16 0);
  gcm_decrypt = λ key nonce aad tag cipher. some cipher;
}

pub zero_crypto-BlockSized : BlockSized zero_crypto
zero_crypto-BlockSized = record { aes_block = λ key block. refl }

abbrev pub request : Bytes
request =
    codes "GET / HTTP/1.1" ++ 13 ∷ 10 ∷ codes "Host: mail.google.com" ++ 13 ∷ 10 ∷ 13 ∷ 10 ∷ []

abbrev pub tcp_segment : Bytes
tcp_segment =
    0xc0 ∷ 0x01 ∷ 0x00 ∷ 0x50 ∷ 0 ∷ 0 ∷ 0 ∷ 7 ∷ 0 ∷ 0 ∷ 0 ∷ 9 ∷ 0x50 ∷ 0x18 ∷ 0xff ∷ 0xff ∷ 0 ∷ 0
    ∷ 0 ∷ 0 ∷ request

-- An IPv4 packet of 20 + 20 + 41 bytes.
abbrev pub ipv4_packet : Bytes
ipv4_packet =
    0x45 ∷ 0 ∷ 0 ∷ 81 ∷ 0 ∷ 0 ∷ 0 ∷ 0 ∷ 64 ∷ 6 ∷ 0 ∷ 0 ∷ 10 ∷ 0 ∷ 0 ∷ 1 ∷ 10 ∷ 0 ∷ 0 ∷ 2
    ∷ tcp_segment

abbrev pub frame : Bytes
frame = replicate 12 0xaa ++ 0x08 ∷ 0x00 ∷ ipv4_packet

abbrev pub captured : PacketData
captured = record {
  timestamp = pos 5;
  length = 95;
  captured_length = 95;
  link_type = ethernet;
  payload = frame;
}

-- A packet of a web request.
abbrev pub web_packet : ParsedPacket
web_packet = record empty_packet {
  timestamp = pos 5;
  src_ip = codes "10.0.0.1";
  dst_ip = codes "10.0.0.2";
  src_port = 49153;
  dst_port = 80;
  protocol = codes "TCP";
  length = 95;
}

-- A ClientHello with one cipher suite and the server name `a.io`.
abbrev pub hello : Bytes
hello =
    1 ∷ 0 ∷ 0 ∷ 56 ∷ 3 ∷ 3 ∷ replicate 32 7
    ++ 0 ∷ 0 ∷ 2 ∷ 0x13 ∷ 1 ∷ 1 ∷ 0 ∷ 0 ∷ 13 ∷ 0 ∷ 0 ∷ 0 ∷ 9 ∷ 0 ∷ 7 ∷ 0 ∷ 0 ∷ 4 ∷ codes "a.io"

abbrev pub tls_record : Bytes
tls_record = 0x16 ∷ 3 ∷ 1 ∷ 0 ∷ 60 ∷ hello

-- A version 1 Initial with a connection id of 8 bytes, no token and a payload of 20 zeros.
abbrev pub initial : Bytes
initial = 0xc0 ∷ 0 ∷ 0 ∷ 0 ∷ 1 ∷ 8 ∷ replicate 8 3 ++ 0 ∷ 0 ∷ 30 ∷ replicate 30 0

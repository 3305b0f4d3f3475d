-- ===== src/Tests/Frames.antt =====
-- The decoders at concrete frames and payloads.
use netprobe_cpp.Base.{◌≡◌, arith, codes, done, Ensures, IfSome}
use netprobe_cpp.Packet.{ParsedPacket, empty_packet}
use netprobe_cpp.Protocol.Tunnels.Bounds.{PayloadWithin}
use netprobe_cpp.Protocol.Network.{decode_network}
use netprobe_cpp.Protocol.Network.Bounds.{decode_network-Ensures}
use netprobe_cpp.Protocol.Tls.{parse_tls_client_hello}
use netprobe_cpp.Protocol.Tls.Bounds.{NameWithin, parse_tls_client_hello-Ensures}
use netprobe_cpp.Protocol.Parse.{parse}
use netprobe_cpp.Protocol.Parse.Bounds.{parse_total}
use netprobe_cpp.Quic.Initial.{extract_initial_sni}
use netprobe_cpp.Quic.Initial.Bounds.{Any, extract_initial_sni-Ensures}
use netprobe_cpp.Tests.Data.{
  initial, plain_inet, zero_crypto, zero_crypto-BlockSized, tls_record, ipv4_packet, captured,
}

parse_total_example :
    (p : ParsedPacket) × (parse plain_inet zero_crypto captured ≡ done p)
    × PayloadWithin captured.payload p
parse_total_example = parse_total plain_inet zero_crypto captured zero_crypto-BlockSized

decode_network_example :
    Ensures
      (PayloadWithin ipv4_packet)
      (decode_network 6 plain_inet ipv4_packet 0 81 0 0x0800 empty_packet)
unfolding codes
decode_network_example =
    decode_network-Ensures 6 plain_inet ipv4_packet 0 81 0 0x0800 empty_packet (omega arith)
      (omega arith) (omega arith) (omega arith)

parse_tls_client_hello_example :
    Ensures (IfSome (NameWithin tls_record)) (parse_tls_client_hello tls_record)
parse_tls_client_hello_example = parse_tls_client_hello-Ensures tls_record

extract_initial_sni_example : Ensures Any (extract_initial_sni zero_crypto initial)
extract_initial_sni_example = extract_initial_sni-Ensures zero_crypto initial zero_crypto-BlockSized

-- ===== src/Protocol/Service.antt =====
-- src/core/ProtocolParser.cpp, the names of services: by port (`classifyTcpPort`,
-- `classifyUdpPort`) and by hostname (`identifyService`).
pub mod Catalog
pub mod Order
use netprobe_cpp.Base.{
  ℕ, Option, none, some, [], ◌∷◌, List, Bool, true, false, ◌||◌, ◌&&◌, ◌==◌, if◌then◌else◌, map,
  Bytes, codes, is_empty, to_lower,
}
use netprobe_cpp.Packet.{ParsedPacket}
use netprobe_cpp.Protocol.Service.Catalog.{Pattern, catalog}

-- The `switch` of `classifyTcpPort`; `none` is its default.
pub tcp_service : ℕ → Option Bytes
tcp_service port =
    if port == 21
    then some (codes "FTP")
    else if port == 22
    then some (codes "SSH")
    else if port == 23
    then some (codes "Telnet")
    else if port == 25
    then some (codes "SMTP")
    else if port == 53
    then some (codes "DNS (TCP)")
    else if port == 80
    then some (codes "HTTP")
    else if port == 110
    then some (codes "POP3")
    else if port == 143
    then some (codes "IMAP")
    else if port == 179
    then some (codes "BGP")
    else if port == 389
    then some (codes "LDAP")
    else if port == 443
    then some (codes "HTTPS")
    else if port == 445
    then some (codes "SMB")
    else if (port == 465) || (port == 587)
    then some (codes "SMTP+TLS")
    else if port == 514
    then some (codes "Syslog")
    else if port == 636
    then some (codes "LDAPS")
    else if port == 853
    then some (codes "DNS-over-TLS")
    else if port == 993
    then some (codes "IMAP+TLS")
    else if port == 995
    then some (codes "POP3+TLS")
    else if port == 1433
    then some (codes "MSSQL")
    else if port == 1883
    then some (codes "MQTT")
    else if port == 3306
    then some (codes "MySQL")
    else if port == 3389
    then some (codes "RDP")
    else if (port == 5060) || (port == 5061)
    then some (codes "SIP")
    else if port == 5222
    then some (codes "XMPP")
    else if port == 5432
    then some (codes "PostgreSQL")
    else if port == 5900
    then some (codes "VNC")
    else if port == 6379
    then some (codes "Redis")
    else if port == 6443
    then some (codes "Kubernetes API")
    else if port == 6667
    then some (codes "IRC")
    else if (port == 8000) || (port == 8080) || (port == 8888)
    then some (codes "HTTP (alt)")
    else if port == 8443
    then some (codes "HTTPS (alt)")
    else if port == 9092
    then some (codes "Kafka")
    else if port == 9200
    then some (codes "Elasticsearch")
    else if port == 9418
    then some (codes "Git")
    else if port == 25565
    then some (codes "Minecraft")
    else if port == 27017
    then some (codes "MongoDB")
    else none

-- The `switch` of `classifyUdpPort`; `none` is its default.
pub udp_service : ℕ → Option Bytes
udp_service port =
    if port == 53
    then some (codes "DNS")
    else if (port == 67) || (port == 68)
    then some (codes "DHCP")
    else if port == 69
    then some (codes "TFTP")
    else if port == 123
    then some (codes "NTP")
    else if (port == 137) || (port == 138) || (port == 139)
    then some (codes "NetBIOS")
    else if (port == 161) || (port == 162)
    then some (codes "SNMP")
    else if port == 443
    then some (codes "QUIC")
    else if (port == 500) || (port == 4500)
    then some (codes "IPsec")
    else if port == 514
    then some (codes "Syslog")
    else if (port == 546) || (port == 547)
    then some (codes "DHCPv6")
    else if (port == 784) || (port == 8853)
    then some (codes "DNS-over-QUIC")
    else if port == 853
    then some (codes "DNS-over-QUIC")
    else if port == 1194
    then some (codes "OpenVPN")
    else if port == 1900
    then some (codes "SSDP")
    else if (port == 3478) || (port == 3479) || (port == 5349)
    then some (codes "STUN/TURN")
    else if port == 4789
    then some (codes "VXLAN")
    else if port == 5353
    then some (codes "mDNS")
    else if port == 5355
    then some (codes "LLMNR")
    else if port == 6081
    then some (codes "GENEVE")
    else if port == 51820
    then some (codes "WireGuard")
    else none

-- A label is set only where there is none yet.
unfoldable pub apply_label : Option Bytes → ParsedPacket → ParsedPacket
apply_label none p = p
apply_label (some s) p = if is_empty p.service then record p { service = s } else p

unfoldable pub classify_tcp_port : ℕ → ParsedPacket → ParsedPacket
classify_tcp_port port p = apply_label (tcp_service port) p

unfoldable pub classify_udp_port : ℕ → ParsedPacket → ParsedPacket
classify_udp_port port p = apply_label (udp_service port) p

unfoldable pub starts_with : Bytes → Bytes → Bool
starts_with [] text = true
starts_with (a ∷ prefix) [] = false
starts_with (a ∷ prefix) (b ∷ text) = (a == b) && starts_with prefix text

-- `text.find(needle) != npos`.
unfoldable pub contains : Bytes → Bytes → Bool
contains needle [] = starts_with needle []
contains needle (b ∷ text) = starts_with needle (b ∷ text) || contains needle text

-- The first pattern whose needle stands in the text; the empty label if none does.
unfoldable pub first_match : List Pattern → Bytes → Bytes
first_match [] text = []
first_match (p ∷ ps) text = if contains p.needle text then p.label else first_match ps text

unfoldable pub identify_service : Bytes → Bytes
identify_service hostname = first_match catalog (map to_lower hostname)

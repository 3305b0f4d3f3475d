-- ===== src/AnalysisSession.antt =====
-- src/core/AnalysisSession.hpp and AnalysisSession.cpp: the pipeline of one packet, from its parse
-- to the flow table. What `ProcessResolver::lookup` finds in the socket table of the system at the
-- time of the packet is an argument of `feed`.
pub mod Totals
pub mod Runs
use netprobe_cpp.Base.{
  ℕ, ◌+◌, ◌-◌, ◌%◌, ◌^◌, Bool, true, false, Option, none, some, ◌&&◌, ◌||◌, not, min, ltb, leb,
  if◌then◌else◌, List, [], ◌∷◌, length, Bytes, codes, text_eq, is_empty, slice, ℤ, Outcome, done,
  ◌>>=◌,
}
use netprobe_cpp.Packet.{PacketData, ParsedPacket}
use netprobe_cpp.Protocol.Network.{Inet}
use netprobe_cpp.Protocol.Parse.{parse}
use netprobe_cpp.Protocol.Service.{identify_service}
use netprobe_cpp.Quic.Keys.{CryptoLibrary}
use netprobe_cpp.Quic.Initial.{looks_like_long_header}
use netprobe_cpp.Dns.Records.{
  DnsRecordType, record_a, record_aaaa, record_cname, record_ptr, record_srv, record_txt,
  record_https, record_svcb, DnsRecord,
}
use netprobe_cpp.Dns.Message.{DnsResponse, parse_response}
use netprobe_cpp.Dns.Reverse.{reverse_name_to_address}
use netprobe_cpp.HostnameCache
use netprobe_cpp.TlsReassembler
use netprobe_cpp.QuicTracker
use netprobe_cpp.Flow
use netprobe_cpp.Flow.State

pub record Session : Type 0 where
  pub flows : Flow.Flows
  pub hostnames : HostnameCache.Hostnames
  pub streams : TlsReassembler.Streams
  pub connections : QuicTracker.Connections
  pub resolve_processes : Bool
  pub plaintext_dns_responses : ℕ
  pub encrypted_dns_packets : ℕ
  pub ech_advertised : Bool

unfoldable pub make : Bool → Session
make resolve_processes = record {
  flows = [];
  hostnames = [];
  streams = [];
  connections = [];
  resolve_processes = resolve_processes;
  plaintext_dns_responses = 0;
  encrypted_dns_packets = 0;
  ech_advertised = false;
}

-- `AnalysisSession::Result`
pub record Result : Type 0 where
  pub parsed : ParsedPacket
  pub hostname : Bytes
  pub process : Bytes

pub with_streams : Session → TlsReassembler.Streams × Option Bytes → Session × Option Bytes
with_streams s (streams, sni) = (record s { streams = streams }, sni)

pub with_connections : Session → QuicTracker.Connections × Option Bytes → Session × Option Bytes
with_connections s (connections, sni) = (record s { connections = connections }, sni)

-- The name that the reassembler or the tracker completes with this payload.
pub feed_trackers :
    CryptoLibrary → Session → ParsedPacket → Bytes → Outcome (Session × Option Bytes)
feed_trackers lib s p payload =
    if text_eq p.protocol (codes "TCP")
    then (do r ← TlsReassembler.feed s.streams p payload; done (with_streams s r))
    else if text_eq p.protocol (codes "UDP")
    then (do
      is_quic ← looks_like_long_header payload
      if is_quic
          then (do
            r ← QuicTracker.feed lib s.connections payload p.timestamp
            done (with_connections s r))
          else done (s, none))
    else done (s, none)

pub recover_sni :
    CryptoLibrary → Session → PacketData → ParsedPacket → Outcome (Session × Option Bytes)
recover_sni lib s raw p =
    let payload =
      slice raw.payload p.payload_offset
        (min p.payload_length (length raw.payload - p.payload_offset)) in
    if is_empty p.sni && ltb 0 p.payload_length && ltb p.payload_offset (length raw.payload)
    then feed_trackers lib s p payload
    else done (s, none)

pub set_recovered : Option Bytes → ParsedPacket → ParsedPacket
set_recovered none p = p
set_recovered (some sni) p =
    let named = identify_service sni in
    if is_empty sni
    then p
    else record p { sni = sni; service = if is_empty named then p.service else named }

-- An address and its name, learned by the cache and by the flows.
pub learn : Bytes → Bytes → Session → Session
learn ip hostname s = record s {
  hostnames = HostnameCache.store s.hostnames ip hostname;
  flows = Flow.set_hostname_for_address ip hostname s.flows;
}

pub learn_reverse : Option Bytes → Bytes → Session → Session
learn_reverse none hostname s = s
learn_reverse (some ip) hostname s = learn ip hostname s

-- The name that an address record stands for: that of the question, where there is one.
pub queried_name : Bytes → DnsRecord → Bytes
queried_name query answer = if is_empty query then answer.name else query

pub harvest_answer : Inet → Bytes → DnsRecordType → DnsRecord → Session → Session
harvest_answer net query record_a answer s = learn answer.value (queried_name query answer) s
harvest_answer net query record_aaaa answer s = learn answer.value (queried_name query answer) s
harvest_answer net query record_ptr answer s =
    learn_reverse (reverse_name_to_address net answer.name) answer.value s
harvest_answer net query record_cname answer s = s
harvest_answer net query record_srv answer s = s
harvest_answer net query record_txt answer s = s
harvest_answer net query record_https answer s = s
harvest_answer net query record_svcb answer s = s

pub harvest_answers : Inet → Bytes → List DnsRecord → Session → Session
harvest_answers net query [] s = s
harvest_answers net query (answer ∷ answers) s =
    harvest_answers net query answers (harvest_answer net query answer.record_type answer s)

pub harvest : Inet → Option DnsResponse → Session → Session
harvest net none s = s
harvest net (some r) s = harvest_answers net r.query_name r.answers (record s {
  plaintext_dns_responses = (s.plaintext_dns_responses + 1) % 2 ^ 64;
  ech_advertised = r.encrypted_client_hello_advertised || s.ech_advertised;
})

pub count_encrypted_dns : ParsedPacket → Session → Session
count_encrypted_dns p s =
    if text_eq p.service (codes "DNS-over-HTTPS")
      || text_eq p.service (codes "DNS-over-TLS")
      || text_eq p.service (codes "DNS-over-QUIC")
    then record s { encrypted_dns_packets = (s.encrypted_dns_packets + 1) % 2 ^ 64 }
    else s

pub first_known : Option Bytes → Option Bytes → Bytes
first_known (some hostname) source = hostname
first_known none (some hostname) = hostname
first_known none none = []

-- The name for the packet's peer: SNI, HTTP host, the destination's name, the source's.
pub hostname_for : Session → ParsedPacket → Bytes
hostname_for s p =
    if not (is_empty p.sni)
    then p.sni
    else if not (is_empty p.hostname)
    then p.hostname
    else first_known (HostnameCache.lookup s.hostnames p.dst_ip)
        (HostnameCache.lookup s.hostnames p.src_ip)

pub process_for : (ParsedPacket → Bytes) → Session → ParsedPacket → Bytes
process_for lookup s p = if s.resolve_processes then lookup p else []

-- The last step: the flow of the packet, and the result.
pub conclude : (ParsedPacket → Bytes) → Session → ParsedPacket → Session × Result
conclude lookup s p =
    let hostname = hostname_for s p in
    let process = process_for lookup s p in
    (
      record s { flows = Flow.update s.flows p hostname process },
      record { parsed = p; hostname = hostname; process = process },
    )

pub feed :
    Inet
    → CryptoLibrary
    → (ParsedPacket → Bytes)
    → Session
    → PacketData
    → Outcome (Session × Result)
feed net lib lookup s raw = do
  first ← parse net lib raw
  r ← recover_sni lib s raw first
  let p = set_recovered r.1 first
  response ← parse_response net raw p
  done (conclude lookup (count_encrypted_dns p (harvest net response r.0)) p)

pub snapshot : Session → ℤ → List (Flow.State.Flow × ℕ)
snapshot s now = Flow.snapshot now s.flows

pub clear : Session → Session
clear s = record s {
  flows = Flow.clear s.flows;
  hostnames = HostnameCache.clear s.hostnames;
  streams = TlsReassembler.clear s.streams;
  connections = QuicTracker.clear s.connections;
  plaintext_dns_responses = 0;
  encrypted_dns_packets = 0;
  ech_advertised = false;
}

pub lookup_hostname : Session → Bytes → Option Bytes
lookup_hostname s ip = HostnameCache.lookup s.hostnames ip

-- ===== src/Dns/Message.antt =====
-- src/core/DNSParser.cpp, `parseMessage` and `parseResponse`.
pub mod Bounds
use netprobe_cpp.Base.{
  ℕ, zero, suc, ◌+◌, ◌-◌, ◌/◌, Bool, true, false, Option, none, some, ◌&&◌, ◌||◌, not, min, ltb,
  leb, ◌==◌, if◌then◌else◌, size_sub, List, [], ◌∷◌, ◌++◌, Bytes, codes, text_eq, length, bit_and,
  slice, Outcome, done, stuck, ◌>>=◌, ◌>?=◌, read, read_u16,
}
use netprobe_cpp.Packet.{PacketData, ParsedPacket}
use netprobe_cpp.Protocol.Network.{Inet}
use netprobe_cpp.Protocol.Parse.{parse}
use netprobe_cpp.Quic.Keys.{CryptoLibrary}
use netprobe_cpp.Dns.Name.{NameAt, read_name}
use netprobe_cpp.Dns.Records.{DnsRecord, Finding, nothing, read_rdata}

abbrev pub dns_port : ℕ
dns_port = 53

abbrev pub mdns_port : ℕ
mdns_port = 5353

abbrev pub llmnr_port : ℕ
llmnr_port = 5355

abbrev pub dns_class_internet : ℕ
dns_class_internet = 1

pub record DnsResponse : Type 0 where
  pub query_name : Bytes
  pub answers : List DnsRecord
  pub encrypted_client_hello_advertised : Bool

-- The questions: the name of the first, and the position behind them.
pub read_questions : ℕ → Bool → Bytes → ℕ → Bytes → Outcome (Option NameAt)
read_questions zero first message position query =
    done (some (record { name = query; position = position }))
read_questions (suc count) first message position query = read_name message position >?= λ n.
    let rest =
      read_questions count false message (n.position + 4) (if first then n.name else query) in
    if ltb (size_sub (length message) n.position) 4 then done none else rest

-- The fixed fields of a record behind its owner's name, then its data.
pub read_answer : Inet → Bytes → NameAt → Outcome (Option (Finding × ℕ))
read_answer net message owner =
    if ltb (size_sub (length message) owner.position) 10 then done none else (do
      type ← read_u16 message owner.position
      class_field ← read_u16 message (owner.position + 2)
      count ← read_u16 message (owner.position + 8)
      let position = owner.position + 10
      if ltb (size_sub (length message) position) count then done none else (do
        found ←
            (if bit_and class_field 0x7fff == dns_class_internet
              then read_rdata net message owner.name type position count
              else done nothing)
        done (some (found, position + count))))

pub add_finding : Finding → DnsResponse → DnsResponse
add_finding found r = record r {
  answers = r.answers ++ found.answers;
  encrypted_client_hello_advertised = found.ech || r.encrypted_client_hello_advertised;
}

pub read_answers : Inet → ℕ → Bytes → ℕ → DnsResponse → Outcome (Option DnsResponse)
read_answers net zero message position r = done (some r)
read_answers net (suc count) message position r = read_name message position >?= λ owner.
    read_answer net message owner >?= λ a. read_answers net count message a.1 (add_finding a.0 r)

pub parse_message : Inet → Bytes → Outcome (Option DnsResponse)
parse_message net message = if ltb (length message) 12 then done none else (do
  flags ← read_u16 message 2
  question_count ← read_u16 message 4
  answer_count ← read_u16 message 6
  if bit_and flags 0x8000 == 0
      then done none
      else (read_questions question_count true message 12 [] >?= λ q.
          read_answers net answer_count message q.position (record {
            query_name = q.name;
            answers = [];
            encrypted_client_hello_advertised = false;
          })))

pub is_dns_port : ℕ → Bool
is_dns_port port = (port == dns_port) || (port == mdns_port) || (port == llmnr_port)

-- `parseResponse` of a packet that is parsed.
pub parse_response : Inet → PacketData → ParsedPacket → Outcome (Option DnsResponse)
parse_response net raw p =
    if not (text_eq p.protocol (codes "UDP")) || (p.payload_length == 0)
    then done none
    else if not (is_dns_port p.src_port || is_dns_port p.dst_port)
    then done none
    else if leb (length raw.payload) p.payload_offset
    then done none
    else parse_message net (
        slice raw.payload p.payload_offset
          (min p.payload_length (length raw.payload - p.payload_offset)))

pub parse_raw_response : Inet → CryptoLibrary → PacketData → Outcome (Option DnsResponse)
parse_raw_response net lib raw = do p ← parse net lib raw; parse_response net raw p

-- ===== src/AnalysisSession/Totals.antt =====
-- What the steps of src/core/AnalysisSession.cpp before the flow table leave alone.
use netprobe_cpp.Base.{
  ◌+◌, ◌%◌, ◌^◌, ◌≡◌, refl, ◌∙◌, arith, Option, none, some, ◌||◌, List, [], ◌∷◌, Bytes,
}
use netprobe_cpp.Packet.{ParsedPacket}
use netprobe_cpp.Protocol.Network.{Inet}
use netprobe_cpp.Dns.Records.{
  DnsRecordType, record_a, record_aaaa, record_cname, record_ptr, record_srv, record_txt,
  record_https, record_svcb, DnsRecord,
}
use netprobe_cpp.Dns.Message.{DnsResponse}
use netprobe_cpp.Dns.Reverse.{reverse_name_to_address}
use netprobe_cpp.Flow.Table.{total_packets, total_bytes, set_hostname-totals}
use netprobe_cpp.AnalysisSession.{
  Session, learn, learn_reverse, queried_name, harvest_answer, harvest_answers, harvest,
  count_encrypted_dns,
}

-- The trackers and the totals of the flows are the same.
abbrev pub SameTotals : Session → Session → Type 0
SameTotals s t =
    (t.streams ≡ s.streams)
    × (t.connections ≡ s.connections)
    × (total_packets t.flows ≡ total_packets s.flows)
    × (total_bytes t.flows ≡ total_bytes s.flows)

pub SameTotals-trans : (s t u : Session) → SameTotals s t → SameTotals t u → SameTotals s u
SameTotals-trans s t u h k = (k.0 ∙ h.0, k.1 ∙ h.1, k.2 ∙ h.2, k.3 ∙ h.3)

learn-SameTotals : (ip hostname : Bytes) (s : Session) → SameTotals s (learn ip hostname s)
unfolding learn
learn-SameTotals ip hostname s =
    let t = set_hostname-totals ip hostname s.flows in (refl, refl, t.0, t.1)

harvest_answer-SameTotals :
    (net : Inet) (query : Bytes) (type : DnsRecordType) (answer : DnsRecord) (s : Session)
    → SameTotals s (harvest_answer net query type answer s)
unfolding harvest_answer
harvest_answer-SameTotals net query record_a answer s =
    learn-SameTotals answer.value (queried_name query answer) s
harvest_answer-SameTotals net query record_aaaa answer s =
    learn-SameTotals answer.value (queried_name query answer) s
harvest_answer-SameTotals net query record_ptr answer s =
    go (reverse_name_to_address net answer.name)
  where
    go : (ip : Option Bytes) → SameTotals s (learn_reverse ip answer.value s)
    go none = unfold learn_reverse in (refl, refl, refl, refl)
    go (some ip) = unfold learn_reverse in learn-SameTotals ip answer.value s
harvest_answer-SameTotals net query record_cname answer s = (refl, refl, refl, refl)
harvest_answer-SameTotals net query record_srv answer s = (refl, refl, refl, refl)
harvest_answer-SameTotals net query record_txt answer s = (refl, refl, refl, refl)
harvest_answer-SameTotals net query record_https answer s = (refl, refl, refl, refl)
harvest_answer-SameTotals net query record_svcb answer s = (refl, refl, refl, refl)

harvest_answers-SameTotals :
    (net : Inet) (query : Bytes) (answers : List DnsRecord) (s : Session)
    → SameTotals s (harvest_answers net query answers s)
unfolding harvest_answers
harvest_answers-SameTotals net query [] s = (refl, refl, refl, refl)
harvest_answers-SameTotals net query (answer ∷ answers) s =
    let next = harvest_answer net query answer.record_type answer s in
    SameTotals-trans s next (harvest_answers net query answers next)
      (harvest_answer-SameTotals net query answer.record_type answer s)
      (harvest_answers-SameTotals net query answers next)

pub harvest-SameTotals :
    (net : Inet) (response : Option DnsResponse) (s : Session)
    → SameTotals s (harvest net response s)
unfolding harvest
harvest-SameTotals net none s = (refl, refl, refl, refl)
harvest-SameTotals net (some r) s =
    harvest_answers-SameTotals net r.query_name r.answers (record s {
      plaintext_dns_responses = (s.plaintext_dns_responses + 1) % 2 ^ 64;
      ech_advertised = r.encrypted_client_hello_advertised || s.ech_advertised;
    })

pub count_encrypted_dns-SameTotals :
    (p : ParsedPacket) (s : Session) → SameTotals s (count_encrypted_dns p s)
unfolding count_encrypted_dns
count_encrypted_dns-SameTotals p s = ground arith

-- ===== src/Dns/Message/Bounds.antt =====
-- Bounds of `parseMessage` and `parseResponse` of src/core/DNSParser.cpp.
use netprobe_cpp.Base.{
  ℕ, zero, suc, ◌+◌, ◌*◌, ◌-◌, ◌≤◌, ◌≡◌, arith, Bool, true, false, Option, ◌||◌, not, min, ltb, leb,
  ◌==◌, if◌then◌else◌, size_sub, [], All, All-append, Bytes, codes, text_eq, length, length-append,
  bit_and, get_or, slice, done, read_u16, read_u16_lem, Ensures, IfSome, Ensures-mono, >>=-Ensures,
  >?=-Ensures, if-Ensures,
}
use netprobe_cpp.Packet.{PacketData, ParsedPacket}
use netprobe_cpp.Protocol.Network.{Inet}
use netprobe_cpp.Protocol.Network.Bounds.{Any}
use netprobe_cpp.Dns.Name.{NameAt, read_name}
use netprobe_cpp.Dns.Name.Bounds.{EndsWithin, read_name-Ensures}
use netprobe_cpp.Dns.Records.{Finding, nothing, read_rdata}
use netprobe_cpp.Dns.Records.Bounds.{IsShort, IsSane, read_u16-Ensures, read_rdata-Ensures}
use netprobe_cpp.Dns.Message.{
  DnsResponse, read_questions, read_answer, add_finding, read_answers, parse_message, is_dns_port,
  parse_response,
}

read_questions-Ensures :
    (count : ℕ) (first : Bool) (message : Bytes) (position : ℕ) (query : Bytes)
    → position ≤ length message
    → Ensures (IfSome (EndsWithin message)) (read_questions count first message position query)
unfolding read_questions
read_questions-Ensures zero first message position query h = h
read_questions-Ensures (suc count) first message position query h =
    >?=-Ensures (EndsWithin message) (EndsWithin message) (read_name message position) _
      (read_name-Ensures message position)
      λ n e.
        if-Ensures (IfSome (EndsWithin message)) (ltb (size_sub (length message) n.position) 4) _ _
          (λ _. tt)
          λ room.
            read_questions-Ensures count false message (n.position + 4)
              (if first then n.name else query) (ground arith)

-- The findings of a record, and the position behind it.
abbrev AnswerWithin : Bytes → Finding × ℕ → Type 0
AnswerWithin message (found, position) = IsSane found × (position ≤ length message)

read_answer-Ensures :
    (net : Inet) (message : Bytes) (owner : NameAt)
    → owner.position ≤ length message
    → Ensures (IfSome (AnswerWithin message)) (read_answer net message owner)
unfolding read_answer nothing
read_answer-Ensures net message owner h =
    if-Ensures Q (ltb (size_sub (length message) owner.position) 10) _ _ (λ _. tt)
      λ room.
        >>=-Ensures Any Q (read_u16 message owner.position) _
          (read_u16-Ensures message owner.position (ground arith))
          λ type _.
            >>=-Ensures Any Q (read_u16 message (owner.position + 2)) _
              (read_u16-Ensures message (owner.position + 2) (ground arith))
              λ class_field _.
                >>=-Ensures Any Q (read_u16 message (owner.position + 8)) _
                  (read_u16-Ensures message (owner.position + 8) (ground arith))
                  λ count _.
                    if-Ensures Q (ltb (size_sub (length message) (owner.position + 10)) count) _ _
                      (λ _. tt)
                      λ fits.
                        >>=-Ensures IsSane Q
                          (if bit_and class_field 0x7fff == 1
                            then read_rdata net message owner.name type (owner.position + 10) count
                            else done nothing)
                          _
                          (if-Ensures IsSane (bit_and class_field 0x7fff == 1) _ _
                            (λ _.
                              read_rdata-Ensures net message owner.name type (owner.position + 10)
                                count (ground arith))
                            (λ _. ground arith))
                          λ found sane. (sane, ground arith)
  where
    Q : Option (Finding × ℕ) → Type 0
    Q = IfSome (AnswerWithin message)

-- A response of at most `count` answers, with no long text.
abbrev pub Answers : ℕ → DnsResponse → Type 0
Answers count r = (length r.answers ≤ count) × All IsShort r.answers

add_finding-Answers :
    (count : ℕ) (found : Finding) (r : DnsResponse)
    → Answers count r
    → IsSane found
    → Answers (count + 1) (add_finding found r)
unfolding add_finding
add_finding-Answers count found r a s = (
  omega (arith, a.0, s.0, length-append r.answers found.answers),
  All-append IsShort r.answers found.answers a.1 s.1,
)

read_answers-Ensures :
    (net : Inet) (count before total : ℕ) (message : Bytes) (position : ℕ) (r : DnsResponse)
    → before + count ≡ total
    → position ≤ length message
    → Answers before r
    → Ensures (IfSome (Answers total)) (read_answers net count message position r)
unfolding read_answers
read_answers-Ensures net zero before total message position r t h a = (omega (arith, a.0), a.1)
read_answers-Ensures net (suc count) before total message position r t h a =
    >?=-Ensures (EndsWithin message) (Answers total) (read_name message position) _
      (read_name-Ensures message position)
      λ owner e.
        >?=-Ensures (AnswerWithin message) (Answers total) (read_answer net message owner) _
          (read_answer-Ensures net message owner e)
          λ f w.
            read_answers-Ensures net count (before + 1) total message f.1 (add_finding f.0 r)
              (omega arith) w.1 (add_finding-Answers before f.0 r a w.0)

-- The number of answers that the header of a message declares.
abbrev pub declared_answers : Bytes → ℕ
declared_answers message = get_or message 6 0 * 256 + get_or message 7 0

-- On any message `parseMessage` ends and reads inside of the message only; the response has at
-- most as many answers as the header declares, and no text of a TXT record is longer than 255 bytes.
pub parse_message-Ensures :
    (net : Inet) (message : Bytes)
    → Ensures (IfSome (Answers (declared_answers message))) (parse_message net message)
unfolding parse_message
parse_message-Ensures net message =
    if-Ensures Q (ltb (length message) 12) _ _ (λ _. tt)
      λ room.
        >>=-Ensures Any Q (read_u16 message 2) _ (read_u16-Ensures message 2 (ground arith))
          λ flags _.
            >>=-Ensures Any Q (read_u16 message 4) _ (read_u16-Ensures message 4 (ground arith))
              λ questions _. rw (read_u16_lem message 6 (ground arith)) (
                if-Ensures Q (bit_and flags 0x8000 == 0) _ _ (λ _. tt)
                  λ _.
                    >?=-Ensures (EndsWithin message) (Answers (declared_answers message))
                      (read_questions questions true message 12 []) _
                      (read_questions-Ensures questions true message 12 [] (ground arith))
                      λ q e.
                        read_answers-Ensures net (declared_answers message) 0
                          (declared_answers message) message q.position
                          (record {
                            query_name = q.name;
                            answers = [];
                            encrypted_client_hello_advertised = false;
                          })
                          (omega arith) e (omega arith, tt))
  where
    Q : Option DnsResponse → Type 0
    Q = IfSome (Answers (declared_answers message))

-- On any packet whatever its fields say `parseResponse` ends, with no read outside of the capture.
pub parse_response-Ensures :
    (net : Inet) (raw : PacketData) (p : ParsedPacket) → Ensures Any (parse_response net raw p)
unfolding parse_response
parse_response-Ensures net raw p =
    if-Ensures Any (not (text_eq p.protocol (codes "UDP")) || (p.payload_length == 0)) _ _ (λ _. tt)
      λ _.
        if-Ensures Any (not (is_dns_port p.src_port || is_dns_port p.dst_port)) _ _ (λ _. tt)
          λ _.
            if-Ensures Any (leb (length raw.payload) p.payload_offset) _ _ (λ _. tt)
              λ _.
                Ensures-mono (IfSome (Answers (declared_answers message))) Any
                  (parse_message net message) (parse_message-Ensures net message) (λ _ _. tt)
  where
    message : Bytes
    message =
        slice raw.payload p.payload_offset
          (min p.payload_length (length raw.payload - p.payload_offset))

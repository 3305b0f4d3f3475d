-- ===== src/Dns/Records/Bounds.antt =====
-- Bounds of the resource records of src/core/DNSParser.cpp.
use netprobe_cpp.Base.{
  ℕ, ◌+◌, ◌≤◌, ◌<◌, ◌≡◌, refl, arith, Option, none, some, ltb, ◌==◌, [], ◌∷◌, ◌++◌, All, Bytes,
  length, to_string, Outcome, done, ◌>>=◌, read, read_u16, Ensures, IfSome, >>=-Ensures, if-Ensures,
}
use netprobe_cpp.Protocol.Network.{Inet, ipv4_to_string, ipv6_to_string}
use netprobe_cpp.Protocol.Network.Bounds.{Any, ipv4_to_string-Ensures, ipv6_to_string-Ensures}
use netprobe_cpp.Dns.Name.{NameAt, read_name}
use netprobe_cpp.Dns.Name.Bounds.{EndsWithin, read_name-Ensures}
use netprobe_cpp.Dns.Records.{
  DnsRecordType, record_a, record_aaaa, record_ptr, record_srv, record_txt, record_https,
  record_svcb, DnsRecord, Finding, nothing, one_answer, cname_answer, target_answer, srv_answer,
  txt_chunks, txt_answer, svcb_advertises_ech, target_or_owner, svcb_answer, read_rdata,
}
use netprobe_cpp.Dns.Records.Loops.{txt_chunks-Ensures, svcb_advertises_ech-Ensures}

-- The length of what a TXT record says; no other type counts.
abbrev pub text_length : DnsRecordType → Bytes → ℕ
text_length record_txt value = length value
text_length _ value = 0

abbrev pub IsShort : DnsRecord → Type 0
IsShort r = text_length r.record_type r.value ≤ 255

-- At most one answer, and no long text.
abbrev pub IsSane : Finding → Type 0
IsSane f = (length f.answers ≤ 1) × All IsShort f.answers

txt_answer-Ensures :
    (message owner : Bytes) (position record_end : ℕ)
    → record_end ≤ length message
    → Ensures IsSane (txt_answer message owner position record_end)
unfolding txt_answer nothing one_answer
txt_answer-Ensures message owner position record_end h =
    >>=-Ensures (λ t. length t ≤ 255) IsSane
      (txt_chunks (record_end + 1) message position record_end []) _
      (txt_chunks-Ensures (record_end + 1) message position record_end [] h (omega arith)
        (omega arith))
      λ text short. ground arith

cname_answer-IsSane :
    (owner : Bytes) (record_end : ℕ) (n : Option NameAt) → IsSane (cname_answer owner record_end n)
unfolding cname_answer nothing one_answer
cname_answer-IsSane owner record_end none = ground arith
cname_answer-IsSane owner record_end (some n) = ground arith

target_answer-IsSane :
    (type : DnsRecordType) (owner : Bytes) (record_end : ℕ) (suffix : Bytes) (priority : ℕ)
    (n : Option NameAt)
    → ((value : Bytes) → text_length type value ≡ 0)
    → IsSane (target_answer type owner record_end suffix priority n)
unfolding target_answer nothing one_answer
target_answer-IsSane type owner record_end suffix priority none h = ground arith
target_answer-IsSane type owner record_end suffix priority (some n) h =
    ground (arith, h (n.name ++ suffix))

pub read_u16-Ensures :
    (message : Bytes) (i : ℕ) → i + 1 < length message → Ensures Any (read_u16 message i)
unfolding read_u16 read
read_u16-Ensures message i h = ground arith

srv_answer-Ensures :
    (message owner : Bytes) (position count record_end : ℕ)
    → position + count ≤ length message
    → Ensures IsSane (srv_answer message owner position count record_end)
unfolding srv_answer nothing
srv_answer-Ensures message owner position count record_end h =
    if-Ensures IsSane (ltb count 7) _ _ (λ _. ground arith)
      λ long.
        >>=-Ensures Any IsSane (read_u16 message position) _
          (read_u16-Ensures message position (ground arith))
          λ priority _.
            >>=-Ensures Any IsSane (read_u16 message (position + 4)) _
              (read_u16-Ensures message (position + 4) (ground arith))
              λ port _.
                >>=-Ensures (IfSome (EndsWithin message)) IsSane (read_name message (position + 6))
                  _ (read_name-Ensures message (position + 6))
                  λ target _.
                    target_answer-IsSane record_srv owner record_end (b':' ∷ to_string port)
                      priority target (λ value. refl)

svcb_answer-Ensures :
    (type : DnsRecordType) (message owner : Bytes) (position count record_end : ℕ)
    → ((value : Bytes) → text_length type value ≡ 0)
    → position + count ≤ length message
    → record_end ≤ length message
    → Ensures IsSane (svcb_answer type message owner position count record_end)
unfolding svcb_answer nothing one_answer
svcb_answer-Ensures type message owner position count record_end t h e =
    if-Ensures IsSane (ltb count 2) _ _ (λ _. ground arith)
      λ long.
        >>=-Ensures Any IsSane (read_u16 message position) _
          (read_u16-Ensures message position (ground arith))
          λ priority _.
            >>=-Ensures (IfSome (EndsWithin message)) IsSane (read_name message (position + 2)) _
              (read_name-Ensures message (position + 2))
              λ target _.
                >>=-Ensures Any IsSane (svcb_advertises_ech message position record_end) _
                  (svcb_advertises_ech-Ensures message position record_end e)
                  λ ech _. ground (arith, t (target_or_owner owner target))

address-Ensures :
    (type : DnsRecordType) (owner : Bytes) (m : Outcome Bytes)
    → ((value : Bytes) → text_length type value ≡ 0)
    → Ensures Any m
    → Ensures IsSane (m >>= λ text. done (one_answer type owner text 0))
unfolding one_answer
address-Ensures type owner m t e = >>=-Ensures Any IsSane m _ e (λ text _. ground (arith, t text))

-- The data of a record inside of the message is read inside of the message; it gives at most one
-- answer, and a text of at most 255 bytes.
pub read_rdata-Ensures :
    (net : Inet) (message owner : Bytes) (type position count : ℕ)
    → position + count ≤ length message
    → Ensures IsSane (read_rdata net message owner type position count)
unfolding read_rdata nothing
read_rdata-Ensures net message owner type position count h =
    if-Ensures IsSane (type == 1) _ _
      (λ _.
        if-Ensures IsSane (count == 4) _ _
          (λ four.
            address-Ensures record_a owner (ipv4_to_string net message position) (λ v. refl)
              (ipv4_to_string-Ensures net message position (ground arith)))
          (λ _. ground arith))
      λ _.
        if-Ensures IsSane (type == 28) _ _
          (λ _.
            if-Ensures IsSane (count == 16) _ _
              (λ sixteen.
                address-Ensures record_aaaa owner (ipv6_to_string net message position) (λ v. refl)
                  (ipv6_to_string-Ensures net message position (ground arith)))
              (λ _. ground arith))
          λ _.
            if-Ensures IsSane (type == 5) _ _
              (λ _.
                named (λ n. cname_answer owner (position + count) n)
                  (cname_answer-IsSane owner (position + count)))
              λ _.
                if-Ensures IsSane (type == 12) _ _
                  (λ _.
                    named (λ n. target_answer record_ptr owner (position + count) [] 0 n)
                      (λ n.
                        target_answer-IsSane record_ptr owner (position + count) [] 0 n
                          (λ v. refl)))
                  λ _.
                    if-Ensures IsSane (type == 33) _ _
                      (λ _. srv_answer-Ensures message owner position count (position + count) h)
                      λ _.
                        if-Ensures IsSane (type == 16) _ _
                          (λ _. txt_answer-Ensures message owner position (position + count) h)
                          λ _.
                            if-Ensures IsSane (type == 64) _ _
                              (λ _.
                                svcb_answer-Ensures record_svcb message owner position count
                                  (position + count) (λ v. refl) h h)
                              λ _.
                                if-Ensures IsSane (type == 65) _ _
                                  (λ _.
                                    svcb_answer-Ensures record_https message owner position count
                                      (position + count) (λ v. refl) h h)
                                  (λ _. ground arith)
  where
    named :
        (f : Option NameAt → Finding)
        → ((n : Option NameAt) → IsSane (f n))
        → Ensures IsSane (read_name message position >>= λ n. done (f n))
    named f k =
        >>=-Ensures (IfSome (EndsWithin message)) IsSane (read_name message position) _
          (read_name-Ensures message position) (λ n _. k n)

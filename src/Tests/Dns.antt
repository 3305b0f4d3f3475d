-- ===== src/Tests/Dns.antt =====
-- The reader of DNS messages at a name and a response.
use netprobe_cpp.Base.{
  ◌+◌, ◌≡◌, arith, some, List, [], ◌∷◌, ◌++◌, length, Bytes, codes, done, Ensures, IfSome,
}
use netprobe_cpp.Dns.Name.{read_name}
use netprobe_cpp.Dns.Name.RoundTrip.{encode_name, join_labels, read_name-encode_name}
use netprobe_cpp.Dns.Message.{parse_message}
use netprobe_cpp.Dns.Message.Bounds.{Answers, parse_message-Ensures}
use netprobe_cpp.Dns.Reverse.{reverse_name_to_address}
use netprobe_cpp.Dns.Reverse.Ipv4.{ipv4_reverse_name, dotted, reverse_name_to_address-ipv4}
use netprobe_cpp.Dns.Name.Bounds.{EndsWithin, read_name-Ensures}
use netprobe_cpp.Tests.Data.{plain_inet}

-- `www.a.io`
abbrev labels : List Bytes
labels = codes "www" ∷ codes "a" ∷ codes "io" ∷ []

read_name-encode_name_example :
    read_name ((7 ∷ 7 ∷ []) ++ (encode_name labels ++ (9 ∷ []))) 2
    ≡ done (some (record { name = join_labels labels; position = 2 + length (encode_name labels) }))
unfolding codes
read_name-encode_name_example = read_name-encode_name (7 ∷ 7 ∷ []) labels (9 ∷ []) (omega arith)

-- A response to a question for `io`, with one address record whose owner is a pointer.
abbrev response : Bytes
response =
    0 ∷ 1 ∷ 0x80 ∷ 0 ∷ 0 ∷ 1 ∷ 0 ∷ 1 ∷ 0 ∷ 0 ∷ 0 ∷ 0 ∷ 2 ∷ b'i' ∷ b'o' ∷ 0 ∷ 0 ∷ 1 ∷ 0 ∷ 1 ∷ 0xc0
    ∷ 12 ∷ 0 ∷ 1 ∷ 0 ∷ 1 ∷ 0 ∷ 0 ∷ 0 ∷ 60 ∷ 0 ∷ 4 ∷ 10 ∷ 0 ∷ 0 ∷ 2 ∷ []

parse_message-Ensures_example : Ensures (IfSome (Answers 1)) (parse_message plain_inet response)
parse_message-Ensures_example = parse_message-Ensures plain_inet response

reverse_name_to_address-ipv4_example :
    reverse_name_to_address plain_inet (ipv4_reverse_name 192 168 1 20) ≡ some (dotted 192 168 1 20)
reverse_name_to_address-ipv4_example =
    reverse_name_to_address-ipv4 plain_inet 192 168 1 20 (omega arith) (omega arith) (omega arith)
      (omega arith)

-- A pointer to itself.
read_name-Ensures_example :
    Ensures (IfSome (EndsWithin (0xc0 ∷ 0 ∷ []))) (read_name (0xc0 ∷ 0 ∷ []) 0)
read_name-Ensures_example = read_name-Ensures (0xc0 ∷ 0 ∷ []) 0

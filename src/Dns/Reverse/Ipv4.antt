-- ===== src/Dns/Reverse/Ipv4.antt =====
-- The names of reverse lookups of IPv4 addresses, against `reverseNameToAddress` of
-- src/core/DNSParser.cpp.
use mathlib.Core.List.{append_assoc}
use netprobe_cpp.Base.{
  ℕ, ◌<◌, ◌≡◌, refl, arith, Bool, true, false, some, ◌&&◌, not, ◌==◌, [], ◌∷◌, ◌++◌, map, Bytes,
  codes, is_empty, text_eq, to_lower, to_string, holds_below, holds_below_at,
}
use netprobe_cpp.Base.{is_digit, all_digits, digits_value}
use netprobe_cpp.Protocol.Network.{Inet}
use netprobe_cpp.Dns.Reverse.{
  extend_first, split_labels, is_octet, join_octets, label_at, reverse_ipv4, reverse_of_labels,
  reverse_name_to_address,
}

-- A text with no dot that lower case leaves alone.
pub is_plain : Bytes → Bool
is_plain [] = true
is_plain (c ∷ cs) = not (c == b'.') && (to_lower c == c) && is_plain cs

split_labels-plain :
    (part rest : Bytes)
    → is_plain part ≡ true
    → split_labels (map to_lower (part ++ b'.' ∷ rest)) ≡ part ∷ split_labels (map to_lower rest)
unfolding split_labels is_plain extend_first to_lower
split_labels-plain [] rest h = refl
split_labels-plain (c ∷ cs) rest h = ground (arith, split_labels-plain cs rest)

octet_table : holds_below 256 (λ n. is_plain (to_string n) && is_octet (to_string n)) ≡ true
unfolding holds_below is_plain is_octet to_string to_lower all_digits digits_value is_digit is_empty
octet_table = refl

octet_fact : (n : ℕ) → n < 256 → (is_plain (to_string n) ≡ true) × (is_octet (to_string n) ≡ true)
octet_fact n h = ground (arith, holds_below_at 256 _ octet_table n h)

arpa_labels :
    split_labels (map to_lower (codes "in-addr.arpa")) ≡ codes "in-addr" ∷ codes "arpa" ∷ []
unfolding split_labels extend_first to_lower codes
arpa_labels = refl

-- The name under which the host of an address is looked up, and the address in dotted form.
pub ipv4_reverse_name : ℕ → ℕ → ℕ → ℕ → Bytes
ipv4_reverse_name a b c d =
    to_string d
    ++ b'.'
      ∷ (to_string c ++ b'.' ∷ (to_string b ++ b'.' ∷ (to_string a ++ b'.' ∷ codes "in-addr.arpa")))

pub dotted : ℕ → ℕ → ℕ → ℕ → Bytes
dotted a b c d = to_string a ++ b'.' ∷ (to_string b ++ b'.' ∷ (to_string c ++ b'.' ∷ to_string d))

ipv4_reverse_name-labels :
    (a b c d : ℕ)
    → a < 256
    → b < 256
    → c < 256
    → d < 256
    → split_labels (map to_lower (ipv4_reverse_name a b c d))
      ≡ to_string d ∷ to_string c ∷ to_string b ∷ to_string a ∷ codes "in-addr" ∷ codes "arpa" ∷ []
unfolding ipv4_reverse_name
ipv4_reverse_name-labels a b c d ha hb hc hd =
    rw
      (
        split_labels-plain (to_string d)
            (to_string c
              ++ b'.' ∷ (to_string b ++ b'.' ∷ (to_string a ++ b'.' ∷ codes "in-addr.arpa")))
            (octet_fact d hd).0,
        split_labels-plain (to_string c)
            (to_string b ++ b'.' ∷ (to_string a ++ b'.' ∷ codes "in-addr.arpa"))
            (octet_fact c hc).0,
        split_labels-plain (to_string b) (to_string a ++ b'.' ∷ codes "in-addr.arpa")
            (octet_fact b hb).0,
        split_labels-plain (to_string a) (codes "in-addr.arpa") (octet_fact a ha).0,
        arpa_labels,
      )
      refl

octet_not_empty : (octet : Bytes) → is_octet octet ≡ true → is_empty octet ≡ false
unfolding is_octet
octet_not_empty octet h = ground arith

join_octets-four :
    (a b c d : Bytes)
    → is_octet a ≡ true
    → is_octet b ≡ true
    → is_octet c ≡ true
    → is_octet d ≡ true
    → join_octets [] (a ∷ b ∷ c ∷ d ∷ []) ≡ some (a ++ b'.' ∷ (b ++ b'.' ∷ (c ++ b'.' ∷ d)))
unfolding join_octets is_empty
join_octets-four [] b c d ha hb hc hd = ground (arith, octet_not_empty [] ha)
join_octets-four (x ∷ a) b c d ha hb hc hd = rw (ha, hb, hc, hd) (simp append_assoc)

-- For every IPv4 address, the name that its reverse lookup asks for is turned back into the address.
pub reverse_name_to_address-ipv4 :
    (net : Inet) (a b c d : ℕ)
    → a < 256
    → b < 256
    → c < 256
    → d < 256
    → reverse_name_to_address net (ipv4_reverse_name a b c d) ≡ some (dotted a b c d)
unfolding reverse_name_to_address reverse_of_labels reverse_ipv4 label_at dotted text_eq codes
reverse_name_to_address-ipv4 net a b c d ha hb hc hd =
    rw (ipv4_reverse_name-labels a b c d ha hb hc hd) (
      join_octets-four (to_string a) (to_string b) (to_string c) (to_string d) (octet_fact a ha).1
        (octet_fact b hb).1 (octet_fact c hc).1 (octet_fact d hd).1)

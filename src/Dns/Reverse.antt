-- ===== src/Dns/Reverse.antt =====
-- src/core/DNSParser.cpp, `reverseNameToAddress`.
pub mod Ipv4
use Prim.Native.Nat.{bit_or}
use netprobe_cpp.Base.{
  ℕ, ◌+◌, ◌-◌, ◌*◌, Bool, true, false, Option, none, some, ◌&&◌, ◌||◌, not, ltb, leb, ◌==◌,
  if◌then◌else◌, List, [], ◌∷◌, ◌++◌, map, Bytes, codes, length, is_empty, text_eq, take, drop,
  get_or, to_lower,
}
use netprobe_cpp.Base.{is_digit, all_digits, digits_value}
use netprobe_cpp.Protocol.Network.{Inet}

-- The first label gets one more code.
pub extend_first : ℕ → List Bytes → List Bytes
extend_first c [] = (c ∷ []) ∷ []
extend_first c (label ∷ labels) = (c ∷ label) ∷ labels

-- `splitLabels`: the parts between the dots, empty ones too.
pub split_labels : Bytes → List Bytes
split_labels [] = [] ∷ []
split_labels (c ∷ cs) =
    let rest = split_labels cs in if c == b'.' then [] ∷ rest else extend_first c rest

pub is_octet : Bytes → Bool
is_octet octet =
    not (is_empty octet || ltb 3 (length octet))
    && all_digits octet
    && leb (digits_value 0 octet) 255

-- The loop over the octets, the last label of the four first.
pub join_octets : Bytes → List Bytes → Option Bytes
join_octets address [] = some address
join_octets address (octet ∷ octets) =
    let rest =
      join_octets ((if is_empty address then address else address ++ b'.' ∷ []) ++ octet) octets in
    if is_octet octet then rest else none

-- Label `i`; beyond the end it is not asked for.
pub label_at : List Bytes → ℕ → Bytes
label_at labels i = get_or labels i []

pub reverse_ipv4 : List Bytes → Option Bytes
reverse_ipv4 labels =
    if not (length labels == 6)
    then none
    else join_octets []
        (label_at labels 3 ∷ label_at labels 2 ∷ label_at labels 1 ∷ label_at labels 0 ∷ [])

-- `std::isxdigit`, and the digit's value.
pub hex_value : ℕ → Option ℕ
hex_value c =
    if is_digit c
    then some (c - b'0')
    else if leb b'a' (to_lower c) && leb (to_lower c) b'f'
    then some (to_lower c - b'a' + 10)
    else none

pub nibble_value : Bytes → Option ℕ
nibble_value (c ∷ []) = hex_value c
nibble_value _ = none

infixl 5 ◌>>?◌
abbrev ◌>>?◌ : Option ℕ → (ℕ → Option Bytes) → Option Bytes
none >>? f = none
some n >>? f = f n

-- The loop over the nibbles from the highest on: two make a byte, behind those of `bytes`.
pub nibble_bytes : Bytes → List Bytes → Option Bytes
nibble_bytes bytes [] = some bytes
nibble_bytes bytes (high ∷ []) = none
nibble_bytes bytes (high ∷ low ∷ nibbles) = nibble_value high >>? λ h.
    nibble_value low >>? λ l. nibble_bytes (bytes ++ bit_or (h * 16) l ∷ []) nibbles

pub reverse_labels : List Bytes → List Bytes → List Bytes
reverse_labels out [] = out
reverse_labels out (label ∷ labels) = reverse_labels (label ∷ out) labels

-- An address that `inet_ntop` does not print, or prints as nothing, is no address.
pub printed_address : Option Bytes → Option Bytes
printed_address none = none
printed_address (some text) = if is_empty text then none else some text

pub printed_bytes : Inet → Option Bytes → Option Bytes
printed_bytes net none = none
printed_bytes net (some bytes) = printed_address (net.ntop6 bytes)

pub reverse_ipv6 : Inet → List Bytes → Option Bytes
reverse_ipv6 net labels =
    if not (length labels == 34)
    then none
    else printed_bytes net (nibble_bytes [] (reverse_labels [] (take 32 labels)))

pub reverse_of_labels : Inet → List Bytes → Option Bytes
reverse_of_labels net labels =
    let top = label_at labels (length labels - 1) in
    let second = label_at labels (length labels - 2) in
    if ltb (length labels) 3
    then none
    else if text_eq top (codes "arpa") && text_eq second (codes "in-addr")
    then reverse_ipv4 labels
    else if text_eq top (codes "arpa") && text_eq second (codes "ip6")
    then reverse_ipv6 net labels
    else none

pub reverse_name_to_address : Inet → Bytes → Option Bytes
reverse_name_to_address net name = reverse_of_labels net (split_labels (map to_lower name))

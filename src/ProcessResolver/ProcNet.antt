-- ===== src/ProcessResolver/ProcNet.antt =====
-- src/core/ProcessResolver.cpp on Linux, from `parseHexIpv4` to `appendProcNetTable`: a line of
-- /proc/net/tcp and its kin. Memory is little-endian. The kernel writes no sign and no prefix before a
-- number, which `strtoul` would take.
pub mod Words
pub mod Hex
pub mod RoundTrip
use netprobe_cpp.Base.{
  ℕ, zero, suc, ◌+◌, ◌-◌, ◌*◌, ◌/◌, ◌%◌, ◌^◌, Bool, true, false, Option, none, some, ◌&&◌, ◌||◌,
  not, min, ltb, leb, ◌==◌, if◌then◌else◌, List, [], ◌∷◌, ◌++◌, length, get_or, slice, Bytes,
  is_empty, is_digit,
}
use netprobe_cpp.Protocol.Network.{Inet}

pub record SocketEntry : Type 0 where
  pub ip : Bytes
  pub port : ℕ
  pub protocol : Bytes
  pub inode : ℕ

-- `isspace`, where `>>` ends a word.
unfoldable pub is_space : ℕ → Bool
is_space c = (c == 32) || (leb 9 c && leb c 13)

unfoldable pub hex_digit_value : ℕ → Option ℕ
hex_digit_value c =
    if leb b'0' c && leb c b'9'
    then some (c - b'0')
    else if leb b'A' c && leb c b'F'
    then some (c - 55)
    else if leb b'a' c && leb c b'f'
    then some (c - 87)
    else none

-- The digits at the front, behind those of `value`.
unfoldable pub hex_prefix : ℕ → Bytes → ℕ
hex_prefix value [] = value
hex_prefix value (c ∷ text) = elim (hex_digit_value c) [
  | none ↦ value
  | some d ↦ hex_prefix (value * 16 + d) text
]

unfoldable pub decimal_prefix : ℕ → Bytes → ℕ
decimal_prefix value [] = value
decimal_prefix value (c ∷ text) = elim (is_digit c) [
  | false ↦ value
  | true ↦ decimal_prefix (value * 10 + (c - b'0')) text
]

-- `std::strtoul(text, nullptr, 16)`, which stops at `ULONG_MAX`.
unfoldable pub strtoul_hex : Bytes → ℕ
strtoul_hex text = min (hex_prefix 0 text) (2 ^ 64 - 1)

-- `std::strtoull(text, nullptr, 10)`
unfoldable pub strtoull_decimal : Bytes → ℕ
strtoull_decimal text = min (decimal_prefix 0 text) (2 ^ 64 - 1)

-- A `uint32_t` in memory.
unfoldable pub bytes_of_u32 : ℕ → Bytes
bytes_of_u32 n = n % 256 ∷ n / 256 % 256 ∷ n / 65536 % 256 ∷ n / 16777216 % 256 ∷ []

unfoldable pub hex_group : Bytes → Bytes
hex_group hex = bytes_of_u32 (strtoul_hex hex % 2 ^ 32)

-- `parseHexIpv4`
unfoldable pub parse_hex_ipv4 : Inet → Bytes → Option Bytes
parse_hex_ipv4 net hex = if not (length hex == 8) then none else net.ntop4 (hex_group hex)

-- `parseHexIpv6`
unfoldable pub parse_hex_ipv6 : Inet → Bytes → Option Bytes
parse_hex_ipv6 net hex =
    if not (length hex == 32)
    then none
    else net.ntop6 (
        hex_group (slice hex 0 8)
        ++ (hex_group (slice hex 8 8)
            ++ (hex_group (slice hex 16 8) ++ hex_group (slice hex 24 8))))

unfoldable pub close_word : Bytes → List Bytes → List Bytes
close_word [] later = later
close_word (c ∷ word) later = (c ∷ word) ∷ later

-- The word that stands at the front, or none, and the words behind it.
unfoldable pub split_words : Bytes → Bytes × List Bytes
split_words [] = ([], [])
split_words (c ∷ text) =
    let rest = split_words text in
    if is_space c then ([], close_word rest.0 rest.1) else (c ∷ rest.0, rest.1)

-- What `>>` reads from the line, one string after the other.
unfoldable pub words : Bytes → List Bytes
words line = let first = split_words line in close_word first.0 first.1

-- `find(':')`, with what stands before and behind it.
unfoldable pub split_colon : Bytes → Option (Bytes × Bytes)
split_colon [] = none
split_colon (c ∷ text) =
    let rest = split_colon text in
    if c == b':'
    then some ([], text)
    else elim rest [ none ↦ none | some (before, behind) ↦ some (c ∷ before, behind) ]

unfoldable pub socket_of : Option Bytes → Bytes → Bytes → ℕ → Option SocketEntry
socket_of none port_hex protocol inode = none
socket_of (some ip) port_hex protocol inode =
    if inode == 0
    then none
    else some (record {
      ip = ip;
      port = strtoul_hex port_hex % 2 ^ 16;
      protocol = protocol;
      inode = inode;
    })

unfoldable pub parse_local :
    Inet → Bool → Bytes → Option (Bytes × Bytes) → Bytes → Option SocketEntry
parse_local net ipv6 protocol none inode = none
parse_local net ipv6 protocol (some (ip_hex, port_hex)) inode =
    let ip = if ipv6 then parse_hex_ipv6 net ip_hex else parse_hex_ipv4 net ip_hex in
    socket_of ip port_hex protocol (strtoull_decimal inode)

-- One round of the loop of `appendProcNetTable`: a line has at least ten words, of which the second
-- and the tenth count.
unfoldable pub parse_line : Inet → Bool → Bytes → Bytes → Option SocketEntry
parse_line net ipv6 protocol line =
    let fields = words line in
    if ltb (length fields) 10
    then none
    else parse_local net ipv6 protocol (split_colon (get_or fields 1 [])) (get_or fields 9 [])

unfoldable pub append_entry : Option SocketEntry → List SocketEntry → List SocketEntry
append_entry none out = out
append_entry (some s) out = out ++ s ∷ []

pub append_lines : Inet → Bool → Bytes → List Bytes → List SocketEntry → List SocketEntry
append_lines net ipv6 protocol [] out = out
append_lines net ipv6 protocol (line ∷ lines) out =
    append_lines net ipv6 protocol lines (append_entry (parse_line net ipv6 protocol line) out)

-- `appendProcNetTable` on the lines of a file, or of none; the first one is the header.
pub append_proc_net_table :
    Inet → List SocketEntry → Option (List Bytes) → Bytes → Bool → List SocketEntry
append_proc_net_table net out none protocol ipv6 = out
append_proc_net_table net out (some []) protocol ipv6 = out
append_proc_net_table net out (some (header ∷ lines)) protocol ipv6 =
    append_lines net ipv6 protocol lines out

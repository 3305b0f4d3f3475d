-- ===== src/ProcessResolver/ProcNet/RoundTrip.antt =====
-- What the kernel writes for an IPv4 socket into /proc/net/tcp or udp, and how
-- src/core/ProcessResolver.cpp reads it back.
use mathlib.Core.Path.{subst}
use netprobe_cpp.Base.{
  ℕ, ◌/◌, ◌%◌, ◌^◌, ◌<◌, ◌≡◌, refl, sym, ap, ◌∙◌, arith, true, false, Option, none, some, ltb, ◌==◌,
  List, [], ◌∷◌, ◌++◌, All, All-append, length, length-append, get_or, Bytes, is_empty, to_string,
}
use netprobe_cpp.Protocol.Network.{Inet}
use netprobe_cpp.ProcessResolver.ProcNet.{
  SocketEntry, is_space, words, split_colon, socket_of, parse_local, parse_line,
}
use netprobe_cpp.ProcessResolver.ProcNet.Words.{
  spaces, spaced, words_of, words_of-append, has_no, is_word, has_no-append, words-spaced,
  split_colon-append, get_or-append, to_string-IsWord, strtoull_decimal-to_string,
}
use netprobe_cpp.ProcessResolver.ProcNet.Hex.{
  hex_byte, kernel_address, hex_byte-plain, has_no-kernel_address, parse_hex_ipv4-kernel_address,
  strtoul_hex-port,
}

pub kernel_local : ℕ → ℕ → ℕ → ℕ → ℕ → Bytes
kernel_local a b c d port =
    kernel_address a b c d ++ (b':' ∷ (hex_byte (port / 256) ++ hex_byte (port % 256)))

kernel_local-IsWord :
    (a b c d port : ℕ)
    → a < 256
    → b < 256
    → c < 256
    → d < 256
    → port < 65536
    → is_word (kernel_local a b c d port) ≡ true
unfolding is_word is_empty kernel_local kernel_address hex_byte has_no is_space
kernel_local-IsWord a b c d port ha hb hc hd hp =
    has_no-append is_space (kernel_address a b c d)
      (b':' ∷ (hex_byte (port / 256) ++ hex_byte (port % 256)))
      (has_no-kernel_address a b c d ha hb hc hd is_space (λ x h. (hex_byte-plain x h).0))
      (has_no-append is_space (hex_byte (port / 256)) (hex_byte (port % 256))
        (hex_byte-plain (port / 256) (omega (arith, hp))).0
        (hex_byte-plain (port % 256) (omega arith)).0)

split_colon-kernel_local :
    (a b c d port : ℕ)
    → a < 256
    → b < 256
    → c < 256
    → d < 256
    → split_colon (kernel_local a b c d port)
      ≡ some (kernel_address a b c d, hex_byte (port / 256) ++ hex_byte (port % 256))
unfolding kernel_local
split_colon-kernel_local a b c d port ha hb hc hd =
    split_colon-append (kernel_address a b c d) (hex_byte (port / 256) ++ hex_byte (port % 256))
      (has_no-kernel_address a b c d ha hb hc hd (λ x. x == b':') (λ x h. (hex_byte-plain x h).1))

-- The line of one socket: spaces, its number, the local address, seven columns, the inode and more
-- columns, each behind as many spaces as pad it, and spaces to the end.
pub kernel_line : ℕ × Bytes → ℕ × Bytes → List (ℕ × Bytes) → ℕ × ℕ → List (ℕ × Bytes) → ℕ → Bytes
kernel_line (before, number) local middle (pad, inode) behind trailing =
    spaces before
    ++ (number ++ spaced (local ∷ (middle ++ ((pad, to_string inode) ∷ behind))) trailing)

-- The socket that is read from it.
pub socket_at : Option Bytes → ℕ → Bytes → ℕ → Option SocketEntry
socket_at none port protocol inode = none
socket_at (some ip) port protocol inode =
    some (record { ip = ip; port = port; protocol = protocol; inode = inode })

socket_of-socket_at :
    (ip : Option Bytes) (port inode : ℕ) (protocol : Bytes)
    → port < 65536
    → 0 < inode
    → socket_of ip (hex_byte (port / 256) ++ hex_byte (port % 256)) protocol inode
      ≡ socket_at ip port protocol inode
unfolding socket_of socket_at
socket_of-socket_at none port inode protocol hp h0 = refl
socket_of-socket_at (some ip) port inode protocol hp h0 =
    let owned : (inode == 0) ≡ false = ground (arith, h0) in
    rw (owned, strtoul_hex-port port hp) refl

-- What the kernel writes about an IPv4 socket with an inode is read back as the address, in the text
-- of `inet_ntop`, the port and the inode, whatever words the other columns hold and with however many
-- spaces the columns are padded.
pub parse_line-kernel_line :
    (net : Inet) (protocol number : Bytes) (a b c d port inode : ℕ)
    (middle behind : List (ℕ × Bytes)) (before pad_local pad_inode trailing : ℕ)
    → a < 256
    → b < 256
    → c < 256
    → d < 256
    → port < 65536
    → 0 < inode
    → inode < 2 ^ 64
    → length (words_of middle) ≡ 7
    → is_word number ≡ true
    → All (λ w. is_word w ≡ true) (words_of middle)
    → All (λ w. is_word w ≡ true) (words_of behind)
    → parse_line net false protocol (
        kernel_line
          (before, number)
          (pad_local, kernel_local a b c d port)
          middle
          (pad_inode, inode)
          behind
          trailing)
      ≡ socket_at (net.ntop4 (a ∷ b ∷ c ∷ d ∷ [])) port protocol inode
unfolding parse_line kernel_line parse_local
parse_line-kernel_line net protocol number a b c d port inode middle behind before pad_local
      pad_inode trailing ha hb hc hd hp h0 hi seven first others last =
    let local : Bytes = kernel_local a b c d port in
    let columns : List (ℕ × Bytes) =
      (pad_local, local) ∷ (middle ++ ((pad_inode, to_string inode) ∷ behind)) in
    let tail : List Bytes = words_of middle ++ (to_string inode ∷ words_of behind) in
    let split : words_of columns ≡ local ∷ tail =
      ap (λ t. local ∷ t) (words_of-append middle ((pad_inode, to_string inode) ∷ behind)) in
    let plain : All (λ w. is_word w ≡ true) (local ∷ tail) = (
      kernel_local-IsWord a b c d port ha hb hc hd hp,
      All-append (λ w. is_word w ≡ true) (words_of middle) (to_string inode ∷ words_of behind)
          others (to_string-IsWord inode h0, last),
    ) in
    let fields : words (spaces before ++ (number ++ spaced columns trailing))
        ≡ number ∷ local ∷ tail =
      words-spaced before number columns trailing first
        (subst (λ t. All (λ w. is_word w ≡ true) t) (sym split) plain)
      ∙ ap (λ t. number ∷ t) split in
    let enough : ltb (length (number ∷ local ∷ tail)) 10 ≡ false =
      ground (arith, seven, length-append (words_of middle) (to_string inode ∷ words_of behind)) in
    let tenth : get_or tail 7 [] ≡ to_string inode =
      subst (λ k. get_or tail k [] ≡ to_string inode) seven
        (get_or-append (words_of middle) (to_string inode) (words_of behind)) in
    rw
      (
        fields,
        enough,
        tenth,
        split_colon-kernel_local a b c d port ha hb hc hd,
        parse_hex_ipv4-kernel_address net a b c d ha hb hc hd,
        strtoull_decimal-to_string inode hi,
      )
      (socket_of-socket_at (net.ntop4 (a ∷ b ∷ c ∷ d ∷ [])) port inode protocol hp h0)

-- ===== src/ProcessResolver/ProcNet/Hex.antt =====
-- Addresses and ports in hexadecimal, as the kernel writes and src/core/ProcessResolver.cpp reads them.
use mathlib.Core.List.{append-nil}
use netprobe_cpp.Base.{
  ℕ, ◌+◌, ◌*◌, ◌/◌, ◌%◌, ◌^◌, ◌<◌, ◌≡◌, refl, sym, ap, ◌∙◌, arith, Bool, true, false, some, ltb,
  ◌==◌, if◌then◌else◌, [], ◌∷◌, ◌++◌, Bytes,
}
use netprobe_cpp.Protocol.Network.{Inet}
use netprobe_cpp.ProcessResolver.ProcNet.{
  is_space, hex_digit_value, hex_prefix, strtoul_hex, bytes_of_u32, hex_group, parse_hex_ipv4,
}
use netprobe_cpp.ProcessResolver.ProcNet.Words.{has_no, has_no-append}

-- `%X` of one digit, and of a byte.
unfoldable pub hex_upper : ℕ → ℕ
hex_upper d = if ltb d 10 then b'0' + d else 55 + d

unfoldable pub hex_byte : ℕ → Bytes
hex_byte b = hex_upper (b / 16) ∷ hex_upper (b % 16) ∷ []

-- `%08X` of the address as a number of the machine, `:`, and `%04X` of the port.
unfoldable pub kernel_address : ℕ → ℕ → ℕ → ℕ → Bytes
kernel_address a b c d = hex_byte d ++ (hex_byte c ++ (hex_byte b ++ hex_byte a))

hex_upper-plain :
    (d : ℕ) → d < 16 → (is_space (hex_upper d) ≡ false) × ((hex_upper d == b':') ≡ false)
unfolding hex_upper is_space
hex_upper-plain d h = ground (arith, h)

pub hex_byte-plain :
    (b : ℕ)
    → b < 256
    → (has_no is_space (hex_byte b) ≡ true) × (has_no (λ c. c == b':') (hex_byte b) ≡ true)
unfolding hex_byte has_no
hex_byte-plain b h =
    let high = hex_upper-plain (b / 16) (omega (arith, h)) in
    let low = hex_upper-plain (b % 16) (omega arith) in
    (rw (high.0, low.0) refl, rw (high.1, low.1) refl)

hex_digit_value-hex_upper : (d : ℕ) → d < 16 → hex_digit_value (hex_upper d) ≡ some d
unfolding hex_digit_value hex_upper
hex_digit_value-hex_upper d h = ground (arith, h)

hex_prefix-hex_upper :
    (value d : ℕ) (text : Bytes)
    → d < 16
    → hex_prefix value (hex_upper d ∷ text) ≡ hex_prefix (value * 16 + d) text
unfolding hex_prefix
hex_prefix-hex_upper value d text h = rw (hex_prefix, hex_digit_value-hex_upper d h) refl

hex_prefix-hex_byte :
    (value b : ℕ) (text : Bytes)
    → b < 256
    → hex_prefix value (hex_byte b ++ text) ≡ hex_prefix (value * 256 + b) text
unfolding hex_byte
hex_prefix-hex_byte value b text h =
    let sum : (value * 16 + b / 16) * 16 + b % 16 ≡ value * 256 + b = omega arith in
    hex_prefix-hex_upper value (b / 16) (hex_upper (b % 16) ∷ text) (omega (arith, h))
    ∙ hex_prefix-hex_upper (value * 16 + b / 16) (b % 16) text (omega arith)
    ∙ ap (λ v. hex_prefix v text) sum

hex_prefix-last : (value b : ℕ) → b < 256 → hex_prefix value (hex_byte b) ≡ value * 256 + b
unfolding hex_prefix
hex_prefix-last value b h =
    ap (hex_prefix value) (sym (append-nil (hex_byte b))) ∙ hex_prefix-hex_byte value b [] h

bytes_of_u32-parts :
    (a b c d : ℕ)
    → a < 256
    → b < 256
    → c < 256
    → d < 256
    → bytes_of_u32 (((d * 256 + c) * 256 + b) * 256 + a) ≡ a ∷ b ∷ c ∷ d ∷ []
unfolding bytes_of_u32
bytes_of_u32-parts a b c d ha hb hc hd =
    let n : ℕ = ((d * 256 + c) * 256 + b) * 256 + a in
    let first : n % 256 ≡ a = omega (arith, ha) in
    let second : n / 256 % 256 ≡ b = omega (arith, ha, hb) in
    let third : n / 65536 % 256 ≡ c = omega (arith, ha, hb, hc) in
    let fourth : n / 16777216 % 256 ≡ d = omega (arith, ha, hb, hc, hd) in
    rw (first, second, third, fourth) refl

strtoul_hex-kernel_address :
    (a b c d : ℕ)
    → a < 256
    → b < 256
    → c < 256
    → d < 256
    → strtoul_hex (kernel_address a b c d) % 2 ^ 32 ≡ ((d * 256 + c) * 256 + b) * 256 + a
unfolding kernel_address strtoul_hex
strtoul_hex-kernel_address a b c d ha hb hc hd =
    let number : hex_prefix 0 (kernel_address a b c d) ≡ ((d * 256 + c) * 256 + b) * 256 + a =
      hex_prefix-hex_byte 0 d (hex_byte c ++ (hex_byte b ++ hex_byte a)) hd
      ∙ hex_prefix-hex_byte (0 * 256 + d) c (hex_byte b ++ hex_byte a) hc
      ∙ hex_prefix-hex_byte ((0 * 256 + d) * 256 + c) b (hex_byte a) hb
      ∙ hex_prefix-last (((0 * 256 + d) * 256 + c) * 256 + b) a ha
      ∙ omega arith in
    rw number (omega (arith, ha, hb, hc, hd))

-- The number of the machine has its bytes in the order of the address.
hex_group-kernel_address :
    (a b c d : ℕ)
    → a < 256
    → b < 256
    → c < 256
    → d < 256
    → hex_group (kernel_address a b c d) ≡ a ∷ b ∷ c ∷ d ∷ []
unfolding hex_group
hex_group-kernel_address a b c d ha hb hc hd =
    ap bytes_of_u32 (strtoul_hex-kernel_address a b c d ha hb hc hd)
    ∙ bytes_of_u32-parts a b c d ha hb hc hd

pub has_no-kernel_address :
    (a b c d : ℕ)
    → a < 256
    → b < 256
    → c < 256
    → d < 256
    → (p : ℕ → Bool) → ((x : ℕ) → x < 256 → has_no p (hex_byte x) ≡ true)
    → has_no p (kernel_address a b c d) ≡ true
unfolding kernel_address
has_no-kernel_address a b c d ha hb hc hd p plain = has_no-append p (hex_byte d) _ (plain d hd) (
    has_no-append p (hex_byte c) _ (plain c hc)
      (has_no-append p (hex_byte b) (hex_byte a) (plain b hb) (plain a ha)))

pub parse_hex_ipv4-kernel_address :
    (net : Inet) (a b c d : ℕ)
    → a < 256
    → b < 256
    → c < 256
    → d < 256
    → parse_hex_ipv4 net (kernel_address a b c d) ≡ net.ntop4 (a ∷ b ∷ c ∷ d ∷ [])
unfolding parse_hex_ipv4 kernel_address hex_byte
parse_hex_ipv4-kernel_address net a b c d ha hb hc hd =
    ap net.ntop4 (hex_group-kernel_address a b c d ha hb hc hd)

pub strtoul_hex-port :
    (port : ℕ)
    → port < 65536
    → strtoul_hex (hex_byte (port / 256) ++ hex_byte (port % 256)) % 2 ^ 16 ≡ port
unfolding strtoul_hex
strtoul_hex-port port h =
    let number : hex_prefix 0 (hex_byte (port / 256) ++ hex_byte (port % 256)) ≡ port =
      hex_prefix-hex_byte 0 (port / 256) (hex_byte (port % 256)) (omega (arith, h))
      ∙ hex_prefix-last (0 * 256 + port / 256) (port % 256) (omega arith)
      ∙ omega arith in
    rw number (omega (arith, h))

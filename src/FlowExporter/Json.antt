-- ===== src/FlowExporter/Json.antt =====
-- src/core/FlowExporter.cpp, `appendJsonString`.
pub mod Utf8
pub mod Reader
use netprobe_cpp.Base.{
  ℕ, zero, suc, ◌+◌, ◌-◌, ◌*◌, ◌/◌, ◌%◌, Bool, true, false, Option, none, some, ◌&&◌, ◌||◌, not,
  ltb, leb, ◌==◌, if◌then◌else◌, [], ◌∷◌, ◌++◌, Bytes, codes, length, bit_and,
}

abbrev pub backslash : ℕ
backslash = 92

abbrev pub quotation : ℕ
quotation = 34

-- `kHex[d]`
pub hex_digit : ℕ → ℕ
hex_digit d = if ltb d 10 then b'0' + d else b'a' + (d - 10)

-- What the loop writes for a byte below 0x80.
pub escape_ascii : ℕ → Bytes
escape_ascii c =
    if c == quotation
    then backslash ∷ quotation ∷ []
    else if c == backslash
    then backslash ∷ backslash ∷ []
    else if c == 8
    then backslash ∷ b'b' ∷ []
    else if c == 12
    then backslash ∷ b'f' ∷ []
    else if c == 10
    then backslash ∷ b'n' ∷ []
    else if c == 13
    then backslash ∷ b'r' ∷ []
    else if c == 9
    then backslash ∷ b't' ∷ []
    else if ltb c 0x20
    then backslash ∷ b'u' ∷ b'0' ∷ b'0' ∷ hex_digit (c / 16 % 16) ∷ hex_digit (c % 16) ∷ []
    else c ∷ []

-- The length of a UTF-8 sequence and the first bits of its code point, by its first byte; 0 is none.
pub sequence_length : ℕ → ℕ
sequence_length c =
    if bit_and c 0xe0 == 0xc0
    then 2
    else if bit_and c 0xf0 == 0xe0
    then 3
    else if bit_and c 0xf8 == 0xf0
    then 4
    else 0

pub first_bits : ℕ → ℕ
first_bits c =
    if bit_and c 0xe0 == 0xc0
    then bit_and c 0x1f
    else if bit_and c 0xf0 == 0xe0
    then bit_and c 0x0f
    else if bit_and c 0xf8 == 0xf0
    then bit_and c 0x07
    else 0

-- The loop over the continuation bytes, of which `left` are to come.
pub continuations : ℕ → ℕ → Bytes → Option ℕ
continuations zero codepoint bytes = some codepoint
continuations (suc left) codepoint [] = none
continuations (suc left) codepoint (b ∷ bytes) =
    let rest = continuations left (codepoint * 64 + bit_and b 0x3f) bytes in
    if not (bit_and b 0xc0 == 0x80) then none else rest

pub is_overlong : ℕ → ℕ → Bool
is_overlong count codepoint =
    ((count == 2) && ltb codepoint 0x80)
    || ((count == 3) && ltb codepoint 0x800)
    || ((count == 4) && ltb codepoint 0x10000)

pub is_surrogate : ℕ → Bool
is_surrogate codepoint = leb 0xd800 codepoint && leb codepoint 0xdfff

pub is_scalar : ℕ → Option ℕ → Bool
is_scalar count none = false
is_scalar count (some codepoint) =
    not (is_overlong count codepoint || is_surrogate codepoint || ltb 0x10ffff codepoint)

-- Whether a valid sequence begins with `c` before `bytes`.
pub is_valid : ℕ → Bytes → Bool
is_valid c bytes =
    let count = sequence_length c in
    not (count == 0)
    && leb count (suc (length bytes))
    && is_scalar count (continuations (count - 1) (first_bits c) bytes)

-- U+FFFD
pub replacement : Bytes
replacement = 0xef ∷ 0xbf ∷ 0xbd ∷ []

-- The loop. The first argument counts the bytes left of a valid sequence, which is copied whole.
pub json_body : ℕ → Bytes → Bytes
json_body left [] = []
json_body (suc left) (c ∷ bytes) = c ∷ json_body left bytes
json_body zero (c ∷ bytes) =
    let one = json_body zero bytes in
    let copied = json_body (sequence_length c - 1) bytes in
    if ltb c 0x80
    then escape_ascii c ++ one
    else if is_valid c bytes
    then c ∷ copied
    else replacement ++ one

pub append_json_string : Bytes → Bytes → Bytes
append_json_string out value = out ++ quotation ∷ (json_body zero value ++ quotation ∷ [])

-- ===== src/FlowExporter/Json/Reader.antt =====
-- A reader of JSON strings, against `appendJsonString` of src/core/FlowExporter.cpp.
use mathlib.Core.List.{append_assoc}
use mathlib.Core.Path.{subst}
use netprobe_cpp.Base.{
  ℕ, zero, suc, ◌+◌, ◌-◌, ◌*◌, ◌<◌, ◌≡◌, refl, ap, ◌∙◌, arith, true, false, Option, none, some,
  ◌&&◌, ◌||◌, Bool, ltb, leb, ◌==◌, if◌then◌else◌, [], ◌∷◌, ◌++◌, Bytes, bit_and, Bool-cases, inl,
  inr,
}
use netprobe_cpp.FlowExporter.Json.{
  backslash, quotation, hex_digit, escape_ascii, sequence_length, first_bits, continuations,
  is_scalar, is_valid, replacement, json_body, append_json_string,
}
use netprobe_cpp.FlowExporter.Json.Utf8.{more_bytes, is_utf8, tail_test, tail_test-bits, AreBytes}
use netprobe_cpp.FlowExporter.Json.Utf8.Valid.{is_valid-is_utf8, is_utf8-more_bytes}

-- Where the reader stands: in the text, behind a backslash, or before the digits of a code, of
-- which it has read the value so far.
pub data Mode : Type 0 where
  in_text behind_backslash : Mode
  in_code : ℕ → ℕ → Mode

pub push_byte : ℕ → Option (Bytes × Bytes) → Option (Bytes × Bytes)
push_byte c none = none
push_byte c (some (value, rest)) = some (c ∷ value, rest)

-- The byte that a letter behind a backslash stands for; 0 is none.
pub escaped_byte : ℕ → ℕ
escaped_byte c =
    if (c == quotation) || (c == backslash)
    then c
    else if c == b'b'
    then 8
    else if c == b'f'
    then 12
    else if c == b'n'
    then 10
    else if c == b'r'
    then 13
    else if c == b't'
    then 9
    else 0

pub is_hex : ℕ → Bool
is_hex c = (leb b'0' c && leb c b'9') || (leb b'a' c && leb c b'f')

pub hex_value : ℕ → ℕ
hex_value c = if leb c b'9' then c - b'0' else c - b'a' + 10

-- The value of a string and the text behind its closing quote, by RFC 8259: a byte below 0x20 must
-- not stand in it, a code has four lower-case hexadecimal digits, of which this reader knows the
-- codes below 0x80 only, and nothing else may follow a backslash but the letters above.
pub read_string : Mode → Bytes → Option (Bytes × Bytes)
read_string mode [] = none
read_string in_text (c ∷ text) =
    let plain = push_byte c (read_string in_text text) in
    let escape = read_string behind_backslash text in
    if c == quotation
    then some ([], text)
    else if c == backslash
    then escape
    else if ltb c 0x20
    then none
    else plain
read_string behind_backslash (c ∷ text) =
    let code = read_string (in_code 3 0) text in
    let letter = push_byte (escaped_byte c) (read_string in_text text) in
    if c == b'u' then code else if escaped_byte c == 0 then none else letter
read_string (in_code zero value) (c ∷ text) =
    let code = value * 16 + hex_value c in
    let rest = push_byte code (read_string in_text text) in
    if is_hex c && ltb code 0x80 then rest else none
read_string (in_code (suc left) value) (c ∷ text) =
    let rest = read_string (in_code left (value * 16 + hex_value c)) text in
    if is_hex c then rest else none

-- The value with each byte that is in no UTF-8 sequence of RFC 3629 replaced by U+FFFD.
pub sanitized : ℕ → Bytes → Bytes
sanitized left [] = []
sanitized (suc left) (c ∷ bytes) = c ∷ sanitized left bytes
sanitized zero (c ∷ bytes) =
    let one = sanitized zero bytes in
    let copied = sanitized (more_bytes c) bytes in
    if ltb c 0x80 then c ∷ one else if is_utf8 c bytes then c ∷ copied else replacement ++ one

-- The next bytes are neither quotes nor backslashes nor below 0x20.
is_special : ℕ → Bool
is_special c = (c == quotation) || (c == backslash) || ltb c 0x20

abbrev Inert : ℕ → Bytes → Type 0
Inert left [] = Unit {0}
Inert zero (c ∷ bytes) = Unit {0}
Inert (suc left) (c ∷ bytes) = (is_special c ≡ false) × Inert left bytes

Inert-zero : (bytes : Bytes) → Inert zero bytes
Inert-zero [] = tt
Inert-zero (b ∷ bytes) = tt

is_inert : (b : ℕ) → b < 256 → (bit_and b 0xc0 == 0x80) ≡ true → is_special b ≡ false
unfolding is_special
is_inert b h t = let tail = tail_test-bits b h in unfold tail_test in ground (arith, t, tail)

escape_ascii-read :
    (c : ℕ) (text : Bytes)
    → ltb c 0x80 ≡ true
    → read_string in_text (escape_ascii c ++ text) ≡ push_byte c (read_string in_text text)
unfolding read_string escape_ascii escaped_byte hex_digit hex_value is_hex push_byte
escape_ascii-read c text h = ground arith

continuations-Inert :
    (left codepoint : ℕ) (bytes : Bytes) (count : ℕ)
    → AreBytes bytes
    → is_scalar count (continuations left codepoint bytes) ≡ true
    → Inert left bytes
unfolding continuations is_scalar
continuations-Inert zero codepoint [] count a h = tt
continuations-Inert zero codepoint (b ∷ bytes) count a h = tt
continuations-Inert (suc left) codepoint [] count a h = tt
continuations-Inert (suc left) codepoint (b ∷ bytes) count a h =
    elim (Bool-cases (bit_and b 0xc0 == 0x80)) [
      | inl more ↦ (
        is_inert b a.0 more,
        continuations-Inert left (codepoint * 64 + bit_and b 0x3f) bytes count a.1 (ground arith),
      )
      | inr ends ↦ absurd (ground arith)
    ]

is_valid-Inert :
    (c : ℕ) (bytes : Bytes)
    → AreBytes bytes
    → is_valid c bytes ≡ true
    → Inert (sequence_length c - 1) bytes
unfolding is_valid
is_valid-Inert c bytes a h =
    continuations-Inert (sequence_length c - 1) (first_bits c) bytes (sequence_length c) a
      (ground arith)

json_body-read :
    (left : ℕ) (value rest : Bytes)
    → AreBytes value
    → Inert left value
    → read_string in_text (json_body left value ++ quotation ∷ rest)
      ≡ some (sanitized left value, rest)
unfolding json_body sanitized read_string push_byte replacement is_special
json_body-read left [] rest a i = refl
json_body-read (suc left) (c ∷ bytes) rest a i =
    ground (arith, json_body-read left bytes rest a.1 i.1, i)
json_body-read zero (c ∷ bytes) rest a i = elim (Bool-cases (ltb c 0x80)) [
  | inl ascii ↦
      rw (ascii, append_assoc (escape_ascii c) (json_body zero bytes) (quotation ∷ rest))
        (escape_ascii-read c (json_body zero bytes ++ quotation ∷ rest) ascii
          ∙ ap (push_byte c) (json_body-read zero bytes rest a.1 (Inert-zero bytes)))
  | inr wide ↦
      let same : is_valid c bytes ≡ is_utf8 c bytes = is_valid-is_utf8 c bytes a.0 a.1 in
      elim (Bool-cases (is_utf8 c bytes)) [
        | inl valid ↦
            let more : sequence_length c - 1 ≡ more_bytes c =
              is_utf8-more_bytes c bytes a.0 valid in
            let inert : Inert (more_bytes c) bytes =
              subst (λ n. Inert n bytes) more (is_valid-Inert c bytes a.1 (same ∙ valid)) in
            rw (same, more)
              (ground (arith, wide, valid, json_body-read (more_bytes c) bytes rest a.1 inert))
        | inr stray ↦
            rw (same, wide, stray)
              (ap (λ r. push_byte 0xef (push_byte 0xbf (push_byte 0xbd r)))
                (json_body-read zero bytes rest a.1 (Inert-zero bytes)))
      ]
]

-- Whatever bytes a value holds, the JSON string that is written for it is read back by a reader that
-- refuses bytes below 0x20, and what follows its closing quote is untouched; the bytes that are in no
-- UTF-8 sequence of RFC 3629, and no others, are read as U+FFFD.
pub read_string-append_json_string :
    (out value rest : Bytes)
    → AreBytes value
    → (text : Bytes) × (append_json_string out value ++ rest ≡ out ++ quotation ∷ text)
      × (read_string in_text text ≡ some (sanitized 0 value, rest))
unfolding append_json_string
read_string-append_json_string out value rest a = (
  json_body zero value ++ quotation ∷ rest,
  simp append_assoc,
  json_body-read zero value rest a (Inert-zero value),
)

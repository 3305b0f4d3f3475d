-- ===== src/FlowExporter/Json/Utf8.antt =====
-- The sequences of UTF-8 (RFC 3629, section 4) against the validation in `appendJsonString` of
-- src/core/FlowExporter.cpp.
pub mod Valid
use netprobe_cpp.Base.{
  ℕ, zero, suc, ◌+◌, ◌-◌, ◌*◌, ◌/◌, ◌%◌, ◌<◌, ◌≡◌, refl, ◌∙◌, arith, Bool, true, false, some, ◌&&◌,
  not, none, ltb, leb, ◌==◌, if◌then◌else◌, [], ◌∷◌, Bytes, length, bit_and, All, Bool-cases, inl,
  inr, ◌⊎◌,
}
use netprobe_cpp.Base.Tables.{holds_below, holds_below_at}
use netprobe_cpp.FlowExporter.Json.{
  sequence_length, first_bits, continuations, is_overlong, is_surrogate, is_scalar, is_valid,
}

-- How many bytes follow a first byte.
pub more_bytes : ℕ → ℕ
more_bytes c =
    if leb 0xc2 c && leb c 0xdf
    then 1
    else if leb 0xe0 c && leb c 0xef
    then 2
    else if leb 0xf0 c && leb c 0xf4
    then 3
    else 0

-- The range of the second byte behind a first one.
pub lowest : ℕ → ℕ
lowest c = if c == 0xe0 then 0xa0 else if c == 0xf0 then 0x90 else 0x80

pub highest : ℕ → ℕ
highest c = if c == 0xed then 0x9f else if c == 0xf4 then 0x8f else 0xbf

-- So many bytes from 0x80 to 0xbf are in front.
pub has_tails : ℕ → Bytes → Bool
has_tails zero bytes = true
has_tails (suc n) [] = false
has_tails (suc n) (b ∷ bytes) = leb 0x80 b && leb b 0xbf && has_tails n bytes

-- A sequence of several bytes that begins with `c` before `bytes`.
pub is_utf8 : ℕ → Bytes → Bool
is_utf8 c [] = false
is_utf8 c (b ∷ bytes) =
    not (more_bytes c == 0)
    && leb (lowest c) b
    && leb b (highest c)
    && has_tails (more_bytes c - 1) bytes

-- The length and the first bits by ranges.
pub length_of : ℕ → ℕ
length_of c =
    if ltb c 0xc0
    then 0
    else if ltb c 0xe0
    then 2
    else if ltb c 0xf0
    then 3
    else if ltb c 0xf8
    then 4
    else 0

pub bits_of : ℕ → ℕ
bits_of c =
    if ltb c 0xc0
    then 0
    else if ltb c 0xe0
    then c - 0xc0
    else if ltb c 0xf0
    then c - 0xe0
    else if ltb c 0xf8
    then c - 0xf0
    else 0

pub sequence_length-ranges : (c : ℕ) → c < 256 → sequence_length c ≡ length_of c
sequence_length-ranges c h =
    ground (arith, holds_below_at 256 (λ c. sequence_length c == length_of c) byte_by_byte c h)
  where
    byte_by_byte : holds_below 256 (λ c. sequence_length c == length_of c) ≡ true
    byte_by_byte = unfold holds_below sequence_length length_of in refl

pub first_bits-ranges : (c : ℕ) → c < 256 → first_bits c ≡ bits_of c
first_bits-ranges c h =
    ground (arith, holds_below_at 256 (λ c. first_bits c == bits_of c) byte_by_byte c h)
  where
    byte_by_byte : holds_below 256 (λ c. first_bits c == bits_of c) ≡ true
    byte_by_byte = unfold holds_below first_bits bits_of in refl

pub tail_bits : (b : ℕ) → b < 256 → (bit_and b 0xc0 ≡ b / 64 * 64) × (bit_and b 0x3f ≡ b % 64)
tail_bits b h = (
  ground (arith, holds_below_at 256 (λ b. bit_and b 0xc0 == b / 64 * 64) high b h),
  ground (arith, holds_below_at 256 (λ b. bit_and b 0x3f == b % 64) low b h),
)
  where
    high : holds_below 256 (λ b. bit_and b 0xc0 == b / 64 * 64) ≡ true
    high = unfold holds_below in refl

    low : holds_below 256 (λ b. bit_and b 0x3f == b % 64) ≡ true
    low = unfold holds_below in refl

-- The loop on tails computes as on numbers.
unfoldable pub tail_test : ℕ → Bool
tail_test b = leb 0x80 b && leb b 0xbf

pub tail_test-bits : (b : ℕ) → b < 256 → (bit_and b 0xc0 == 0x80) ≡ tail_test b
unfolding tail_test
tail_test-bits b h = let e = tail_bits b h in rw (e.0) (ground arith)

-- The bytes are below 256.
abbrev pub AreBytes : Bytes → Type 0
AreBytes = All (λ b. b < 256)

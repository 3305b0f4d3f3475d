-- ===== src/Quic/Frames.antt =====
-- src/core/QuicParser.cpp, `readVarint` and `collectCryptoFrames`.
pub mod Bounds
use netprobe_cpp.Base.{
  ℕ, zero, suc, ◌+◌, ◌-◌, ◌*◌, ◌/◌, ◌%◌, ◌^◌, Bool, Option, none, some, ◌||◌, ltb, leb, ◌==◌,
  if◌then◌else◌, size_sub, List, [], ◌∷◌, ◌++◌, Bytes, length, Outcome, done, stuck, ◌>>=◌, ◌>?=◌,
  read, read_bytes,
}

-- A number that is read, and the position behind it.
pub record Varint : Type 0 where
  pub value : ℕ
  pub position : ℕ

-- The loop of `readVarint`; the first argument counts the bytes left.
pub varint_bytes : ℕ → Bytes → ℕ → ℕ → Outcome (Option Varint)
varint_bytes zero bytes pos out = done (some (record { value = out; position = pos }))
varint_bytes (suc rest) bytes pos out = do
  b ← read bytes pos
  varint_bytes rest bytes (pos + 1) (out * 256 + b)

-- `none` is the result `false`. The top two bits of the first byte are the length's logarithm.
pub read_varint : Bytes → ℕ → Outcome (Option Varint)
read_varint bytes pos = if leb (length bytes) pos then done none else (do
  first ← read bytes pos
  let len = 2 ^ (first / 64)
  if ltb (length bytes) (pos + len)
      then done none
      else varint_bytes (len - 1) bytes (pos + 1) (first % 64))

pub record CryptoFragment : Type 0 where
  pub offset : ℕ
  pub content : Bytes

abbrev pub sane_crypto_bound : ℕ
sane_crypto_bound = 2 ^ 24

-- `count` integers in a row, which are skipped.
pub skip_varints : ℕ → Bytes → ℕ → Outcome (Option ℕ)
skip_varints zero bytes pos = done (some pos)
skip_varints (suc count) bytes pos =
    read_varint bytes pos >?= λ v. skip_varints count bytes v.position

-- An ACK frame behind its type: four integers, of which the third counts pairs of two, and with
-- ECN counts three more.
pub skip_ack : Bytes → ℕ → ℕ → Outcome (Option ℕ)
skip_ack bytes type pos = skip_varints 2 bytes pos >?= λ after_delay.
    read_varint bytes after_delay >?= λ range_count.
    skip_varints 1 bytes range_count.position >?= λ after_first.
    if ltb (length bytes) range_count.value
    then done none
    else (skip_varints (2 * range_count.value) bytes after_first >?= λ after_ranges.
        skip_varints (if type == 0x03 then 3 else 0) bytes after_ranges)

-- What one round of the walk adds to the vector, and the position behind the frame.
pub record Frame : Type 0 where
  pub found : List CryptoFragment
  pub position : ℕ

-- The data of a CRYPTO frame with this offset: `count` bytes at `pos`.
pub take_crypto : Bytes → ℕ → ℕ → ℕ → Outcome (Option Frame)
take_crypto bytes offset count pos =
    if ltb (size_sub (length bytes) pos) count
    then done none
    else if ltb sane_crypto_bound offset || ltb sane_crypto_bound count
    then done none
    else (do
      content ← read_bytes bytes pos count
      done (
          some (record {
            found = record { offset = offset; content = content } ∷ [];
            position = pos + count;
          })))

pub read_crypto : Bytes → ℕ → Outcome (Option Frame)
read_crypto bytes pos = read_varint bytes pos >?= λ offset.
    read_varint bytes offset.position >?= λ count.
    take_crypto bytes offset.value count.value count.position

pub read_ack : Bytes → ℕ → ℕ → Outcome (Option Frame)
read_ack bytes type pos =
    skip_ack bytes type pos >?= λ at. done (some (record { found = []; position = at }))

-- The `switch` on a frame's type, of the frame at `pos`.
pub read_frame : Bytes → ℕ → Outcome (Option Frame)
read_frame bytes pos = do
  type ← read bytes pos
  if (type == 0x00) || (type == 0x01)
      then done (some (record { found = []; position = pos + 1 }))
      else if (type == 0x02) || (type == 0x03)
      then read_ack bytes type (pos + 1)
      else if type == 0x06
      then read_crypto bytes (pos + 1)
      else done none

-- The walk over the frames of a decrypted payload, on fuel. `out` is the vector so far.
pub collect_frames : ℕ → Bytes → ℕ → List CryptoFragment → Outcome (Option (List CryptoFragment))
collect_frames zero bytes pos out = stuck
collect_frames (suc fuel) bytes pos out =
    let next =
      read_frame bytes pos >?= λ f. collect_frames fuel bytes f.position (out ++ f.found) in
    if leb (length bytes) pos then done (some out) else next

pub collect_crypto_frames : Bytes → Outcome (Option (List CryptoFragment))
collect_crypto_frames bytes = collect_frames (length bytes + 1) bytes 0 []

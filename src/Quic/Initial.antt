-- ===== src/Quic/Initial.antt =====
-- src/core/QuicParser.cpp, `looksLikeLongHeader`, `removeHeaderProtection`, `parseInitial` and
-- `extractInitialSni`.
pub mod HeaderBounds
pub mod Bounds
use Prim.Native.Nat.{bit_xor, max}
use netprobe_cpp.Base.{
  ℕ, zero, suc, ◌+◌, ◌-◌, ◌*◌, ◌/◌, ◌%◌, Bool, false, true, Option, none, some, ◌||◌, not, ltb, leb,
  ◌==◌, if◌then◌else◌, List, [], ◌∷◌, ◌++◌, Bytes, length, bit_and, take, is_empty, Outcome, done,
  ◌>>=◌, ◌>?=◌, read, read_u32, read_bytes, write_bytes,
}
use netprobe_cpp.Base.Lists.{replicate}
use netprobe_cpp.Quic.Frames.{CryptoFragment, read_varint, collect_crypto_frames}
use netprobe_cpp.Quic.Hello.{sni_from_client_hello}
use netprobe_cpp.Quic.Keys.{
  CryptoLibrary, VersionParams, version_params, InitialKeys, derive_client_initial_keys, xor_bytes,
  packet_number_of, decrypt_payload,
}

abbrev is_some {ℓ} : {A : Type ℓ} → Option A → Bool
is_some none = false
is_some (some a) = true

-- The long-header bit and the fixed bit.
abbrev has_long_form : ℕ → Bool
has_long_form first = bit_and first 0xc0 == 0xc0

pub looks_like_long_header : Bytes → Outcome Bool
looks_like_long_header bytes = if ltb (length bytes) 5 then done false else (do
  first ← read bytes 0
  if not (has_long_form first)
      then done false
      else (do version ← read_u32 bytes 1; done (is_some (version_params version))))

pub record InitialPacket : Type 0 where
  pub destination_connection_id : Bytes
  pub crypto : List CryptoFragment

-- The header's fields that the decryption uses.
pub record Header : Type 0 where
  pub params : VersionParams
  pub dcid : Bytes
  pub pn_offset : ℕ
  pub length : ℕ

-- A connection id behind its length, at most 20 bytes: its first byte and the position behind it.
pub read_connection_id : Bytes → ℕ → Outcome (Option ℕ)
read_connection_id bytes pos = if leb (length bytes) pos then done none else (do
  count ← read bytes pos
  done (
      if ltb 20 count || ltb (length bytes) (pos + 1 + count)
      then none
      else some (pos + 1 + count)))

-- Token length, token and the Length field.
pub read_header_tail : Bytes → VersionParams → Bytes → ℕ → Outcome (Option Header)
read_header_tail bytes params dcid pos = read_varint bytes pos >?= λ token.
    if ltb (length bytes) token.value || ltb (length bytes) (token.position + token.value)
    then done none
    else (read_varint bytes (token.position + token.value) >?= λ len.
        if ltb (length bytes) (len.position + len.value)
        then done none
        else if ltb len.value 17
        then done none
        else if ltb (length bytes) (len.position + 20)
        then done none
        else done (
            some (record {
              params = params;
              dcid = dcid;
              pn_offset = len.position;
              length = len.value;
            })))

-- The header behind a version, if it is one that is known.
pub read_versioned : Bytes → Option VersionParams → Outcome (Option Header)
read_versioned bytes none = done none
read_versioned bytes (some params) = read_connection_id bytes 5 >?= λ after_dcid. (do
  dcid ← read_bytes bytes 6 (after_dcid - 6)
  read_connection_id bytes after_dcid >?= λ after_scid.
      read_header_tail bytes params dcid after_scid)

pub read_header : Bytes → Outcome (Option Header)
read_header bytes = if ltb (length bytes) 20 then done none else (do
  first ← read bytes 0
  if not (has_long_form first)
      then done none
      else (do version ← read_u32 bytes 1; read_versioned bytes (version_params version)))

-- What header protection hides: the first byte, and the packet number's bytes.
pub record Unprotected : Type 0 where
  pub first_byte : ℕ
  pub pn_bytes : Bytes

-- `removeHeaderProtection` with the mask, if AES gave one: the first byte loses its mask, and with it shows how many bytes of the
-- packet number there are to unmask.
pub unmask : ℕ → Bytes → Option Bytes → Outcome (Option Unprotected)
unmask first_byte pn_bytes none = done none
unmask first_byte pn_bytes (some mask) = do
  mask0 ← read mask 0
  let first = bit_xor first_byte (bit_and mask0 0x0f)
  let pn_len = first % 4 + 1
  pn_mask ← read_bytes mask 1 pn_len
  done (some (record { first_byte = first; pn_bytes = xor_bytes (take pn_len pn_bytes) pn_mask }))

pub remove_header_protection :
    CryptoLibrary → InitialKeys → Bytes → ℕ → Bytes → Outcome (Option Unprotected)
remove_header_protection lib keys sample first_byte pn_bytes =
    unmask first_byte pn_bytes (lib.aes_ecb keys.hp sample)

-- The part of `parseInitial` behind the unprotected header: aad, ciphertext, tag.
pub open_payload :
    CryptoLibrary → InitialKeys → Bytes → Header → Unprotected → Outcome (Option Bytes)
open_payload lib keys bytes h u =
    let pn_len = length u.pn_bytes in
    let payload_start = h.pn_offset + pn_len in
    let payload_end = h.pn_offset + h.length in
    if ltb payload_end (payload_start + 16) then done none else (do
      clear ← read_bytes bytes 1 (h.pn_offset - 1)
      ciphertext ← read_bytes bytes payload_start (payload_end - payload_start - 16)
      tag ← read_bytes bytes (payload_end - 16) 16
      done (
          decrypt_payload lib keys (packet_number_of 0 u.pn_bytes)
            (u.first_byte ∷ (clear ++ u.pn_bytes)) ciphertext tag))

pub decrypt_initial : CryptoLibrary → Bytes → Header → InitialKeys → Outcome (Option Bytes)
decrypt_initial lib bytes h keys = do
  sample ← read_bytes bytes (h.pn_offset + 4) 16
  first ← read bytes 0
  pn_bytes ← read_bytes bytes h.pn_offset 4
  remove_header_protection lib keys sample first pn_bytes >?= λ u.
      if not (bit_and u.first_byte 0x30 == h.params.initial_type_bits)
      then done none
      else open_payload lib keys bytes h u

-- The rest of `parseInitial` once the keys are derived.
pub parse_with_keys :
    CryptoLibrary → Bytes → Header → Option InitialKeys → Outcome (Option InitialPacket)
parse_with_keys lib bytes h none = done none
parse_with_keys lib bytes h (some keys) = decrypt_initial lib bytes h keys >?= λ plaintext.
    collect_crypto_frames plaintext >?= λ crypto.
    done (some (record { destination_connection_id = h.dcid; crypto = crypto }))

pub parse_initial : CryptoLibrary → Bytes → Outcome (Option InitialPacket)
parse_initial lib bytes = read_header bytes >?= λ h.
    parse_with_keys lib bytes h (derive_client_initial_keys lib h.params h.dcid)

-- Where the furthest fragment ends.
pub crypto_end : ℕ → List CryptoFragment → ℕ
crypto_end end [] = end
crypto_end end (f ∷ fs) = crypto_end (max end (f.offset + length f.content)) fs

-- The loop that copies the fragments into the stream.
pub stitch : Bytes → List CryptoFragment → Outcome Bytes
stitch stream [] = done stream
stitch stream (f ∷ fs) = do written ← write_bytes stream f.offset f.content; stitch written fs

-- The SNI in the fragments of one packet.
pub sni_of_fragments : List CryptoFragment → Outcome (Option Bytes)
sni_of_fragments crypto =
    if is_empty crypto then done none else if crypto_end 0 crypto == 0 then done none else (do
      stream ← stitch (replicate (crypto_end 0 crypto) 0) crypto
      sni_from_client_hello stream)

pub extract_initial_sni : CryptoLibrary → Bytes → Outcome (Option Bytes)
extract_initial_sni lib bytes =
    parse_initial lib bytes >?= λ initial. sni_of_fragments initial.crypto

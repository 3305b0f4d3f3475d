-- ===== src/Protocol/Tls.antt =====
-- src/core/ProtocolParser.cpp, `looksLikeTlsHandshake` and `parseTlsClientHello`. `none` is the
-- result `false`; `some sni` is `true` with the name that is written to `outSni`.
pub mod Bounds
use netprobe_cpp.Base.{
  ℕ, zero, suc, ◌+◌, ◌*◌, Bool, false, Option, none, some, ◌&&◌, not, ltb, leb, ◌==◌, if◌then◌else◌,
  size_sub, Bytes, length, Outcome, done, stuck, ◌>>=◌, ◌>?=◌, read, read_u16, read_bytes,
}

pub looks_like_tls_handshake : Bytes → Outcome Bool
looks_like_tls_handshake payload = if ltb (length payload) 5 then done false else (do
  type ← read payload 0
  major ← read payload 1
  minor ← read payload 2
  done ((type == 0x16) && (major == 0x03) && leb minor 0x04))

-- The handshake header behind the record header: where the ClientHello ends.
pub client_hello_end : Bytes → ℕ → Outcome (Option ℕ)
client_hello_end payload record_end = if ltb record_end 9 then done none else (do
  type ← read payload 5
  if not (type == 0x01) then done none else (do
    b1 ← read payload 6
    b2 ← read payload 7
    b3 ← read payload 8
    let handshake_end = 9 + (b1 * 65536 + b2 * 256 + b3)
    if ltb record_end handshake_end
        then done none
        else if ltb handshake_end 43
        then done none
        else done (some handshake_end)))

-- The record header and the handshake header.
pub handshake_end_of : Bytes → Outcome (Option ℕ)
handshake_end_of payload = do
  is_handshake ← looks_like_tls_handshake payload
  if not is_handshake then done none else (do
    record_length ← read_u16 payload 3
    if ltb (length payload) (5 + record_length)
        then done none
        else client_hello_end payload (5 + record_length))

-- A field behind a length of one byte: the position after it.
pub skip_field8 : Bytes → ℕ → ℕ → Outcome (Option ℕ)
skip_field8 payload end pos = if leb end pos then done none else (do
  count ← read payload pos
  if ltb (size_sub end (pos + 1)) count then done none else done (some (pos + 1 + count)))

-- A length of two bytes, checked against what is left: the field's first position and its end.
pub record Range : Type 0 where
  pub first : ℕ
  pub last : ℕ

pub field16 : Bytes → ℕ → ℕ → Outcome (Option Range)
field16 payload end pos = if ltb (size_sub end pos) 2 then done none else (do
  count ← read_u16 payload pos
  if ltb (size_sub end (pos + 2)) count
      then done none
      else done (some (record { first = pos + 2; last = pos + 2 + count })))

-- The loop over a server name list, on fuel.
pub server_names : ℕ → Bytes → ℕ → ℕ → Outcome (Option Bytes)
server_names zero payload end pos = stuck
server_names (suc fuel) payload end pos =
    let next = λ (at : ℕ). server_names fuel payload end at in
    if ltb (size_sub end pos) 3 then done none else (do
      type ← read payload pos
      count ← read_u16 payload (pos + 1)
      if ltb (size_sub end (pos + 3)) count
          then done none
          else if type == 0x00
          then (do name ← read_bytes payload (pos + 3) count; done (some name))
          else next (pos + 3 + count))

-- The body of a server_name extension.
pub sni_extension : Bytes → ℕ → ℕ → Outcome (Option Bytes)
sni_extension payload end pos = field16 payload end pos >?= λ names.
    server_names (length payload + 1) payload names.last names.first

-- The loop over extensions, on fuel. The first server_name extension decides.
pub tls_extensions : ℕ → Bytes → ℕ → ℕ → Outcome (Option Bytes)
tls_extensions zero payload end pos = stuck
tls_extensions (suc fuel) payload end pos =
    let next = λ (at : ℕ). tls_extensions fuel payload end at in
    if ltb (size_sub end pos) 4 then done none else (do
      type ← read_u16 payload pos
      count ← read_u16 payload (pos + 2)
      let behind = pos + 4 + count
      if ltb (size_sub end (pos + 4)) count
          then done none
          else if type == 0x0000
          then sni_extension payload behind (pos + 4)
          else next behind)

pub parse_tls_client_hello : Bytes → Outcome (Option Bytes)
parse_tls_client_hello payload = handshake_end_of payload >?= λ handshake_end.
    skip_field8 payload handshake_end 43 >?= λ after_session.
    field16 payload handshake_end after_session >?= λ cipher_suites.
    skip_field8 payload handshake_end cipher_suites.last >?= λ after_compression.
    field16 payload handshake_end after_compression >?= λ extensions.
    tls_extensions (length payload + 1) payload extensions.last extensions.first

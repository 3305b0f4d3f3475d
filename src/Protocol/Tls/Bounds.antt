-- ===== src/Protocol/Tls/Bounds.antt =====
-- What the ClientHello parser of src/core/ProtocolParser.cpp reads.
use netprobe_cpp.Base.{
  ℕ, zero, suc, ◌+◌, ◌*◌, ◌≤◌, ◌<◌, ◌≡◌, true, arith, Bytes, length, get_or, length-slice, read,
  read_u16, read_bytes, Ensures, IfSome, >?=-Ensures,
}
use netprobe_cpp.Protocol.Tls.{
  looks_like_tls_handshake, client_hello_end, handshake_end_of, skip_field8, Range, field16,
  server_names, sni_extension, tls_extensions, parse_tls_client_hello,
}

-- The position is at the end of the field or before it.
abbrev pub Within : ℕ → ℕ → ℕ → Type 0
Within pos end at = (pos ≤ at) × (at ≤ end)

abbrev pub RangeWithin : ℕ → ℕ → Range → Type 0
RangeWithin pos end r = (pos + 2 ≤ r.first) × (r.first ≤ r.last) × (r.last ≤ end)

pub looks_like_tls_handshake-Ensures :
    (payload : Bytes)
    → Ensures (λ b. b ≡ true → 5 ≤ length payload) (looks_like_tls_handshake payload)
unfolding looks_like_tls_handshake read
looks_like_tls_handshake-Ensures payload = ground arith

client_hello_end-Ensures :
    (payload : Bytes) (record_end : ℕ)
    → record_end ≤ length payload
    → Ensures (IfSome (Within 43 (length payload))) (client_hello_end payload record_end)
unfolding client_hello_end read
client_hello_end-Ensures payload record_end h = ground arith

handshake_end_of-Ensures :
    (payload : Bytes) → Ensures (IfSome (Within 43 (length payload))) (handshake_end_of payload)
unfolding handshake_end_of read_u16 read looks_like_tls_handshake
handshake_end_of-Ensures payload =
    ground (
      arith,
      client_hello_end-Ensures payload (5 + (get_or payload 3 0 * 256 + get_or payload 4 0)),
    )

skip_field8-Ensures :
    (payload : Bytes) (end pos : ℕ)
    → end ≤ length payload
    → Ensures (IfSome (Within pos end)) (skip_field8 payload end pos)
unfolding skip_field8 read
skip_field8-Ensures payload end pos h = ground arith

field16-Ensures :
    (payload : Bytes) (end pos : ℕ)
    → end ≤ length payload
    → pos ≤ end
    → Ensures (IfSome (RangeWithin pos end)) (field16 payload end pos)
unfolding field16 read_u16 read
field16-Ensures payload end pos h k = ground arith

-- A name that is found is no longer than the payload.
abbrev pub NameWithin : Bytes → Bytes → Type 0
NameWithin payload name = length name ≤ length payload

server_names-Ensures :
    (fuel : ℕ) (payload : Bytes) (end pos : ℕ)
    → end ≤ length payload
    → pos ≤ end
    → end < pos + fuel
    → Ensures (IfSome (NameWithin payload)) (server_names fuel payload end pos)
unfolding server_names read_bytes read_u16 read
server_names-Ensures zero payload end pos h k f = absurd (omega arith)
server_names-Ensures (suc fuel) payload end pos h k f =
    let count = get_or payload (pos + 1) 0 * 256 + get_or payload (pos + 1 + 1) 0 in
    ground (
      arith,
      server_names-Ensures fuel payload end (pos + 3 + count) h,
      length-slice payload (pos + 3) count,
    )

sni_extension-Ensures :
    (payload : Bytes) (end pos : ℕ)
    → end ≤ length payload
    → pos ≤ end
    → Ensures (IfSome (NameWithin payload)) (sni_extension payload end pos)
unfolding sni_extension
sni_extension-Ensures payload end pos h k =
    >?=-Ensures (RangeWithin pos end) _ (field16 payload end pos) _
      (field16-Ensures payload end pos h k)
      (λ names w.
        server_names-Ensures (length payload + 1) payload names.last names.first (omega arith)
          (omega arith) (omega arith))

tls_extensions-Ensures :
    (fuel : ℕ) (payload : Bytes) (end pos : ℕ)
    → end ≤ length payload
    → pos ≤ end
    → end < pos + fuel
    → Ensures (IfSome (NameWithin payload)) (tls_extensions fuel payload end pos)
unfolding tls_extensions read_u16 read
tls_extensions-Ensures zero payload end pos h k f = absurd (omega arith)
tls_extensions-Ensures (suc fuel) payload end pos h k f =
    let behind = pos + 4 + (get_or payload (pos + 2) 0 * 256 + get_or payload (pos + 2 + 1) 0) in
    ground (
      arith,
      sni_extension-Ensures payload behind (pos + 4),
      tls_extensions-Ensures fuel payload end behind h,
    )

-- On any payload at all, `parseTlsClientHello` ends, reads inside of the payload only, and a name
-- that it finds is no longer than the payload.
pub parse_tls_client_hello-Ensures :
    (payload : Bytes) → Ensures (IfSome (NameWithin payload)) (parse_tls_client_hello payload)
unfolding parse_tls_client_hello
parse_tls_client_hello-Ensures payload =
    >?=-Ensures (Within 43 (length payload)) _ (handshake_end_of payload) _
      (handshake_end_of-Ensures payload)
      λ end e.
        >?=-Ensures (Within 43 end) _ (skip_field8 payload end 43) _
          (skip_field8-Ensures payload end 43 e.1)
          λ after_session s.
            >?=-Ensures (RangeWithin after_session end) _ (field16 payload end after_session) _
              (field16-Ensures payload end after_session e.1 s.1)
              λ suites c.
                >?=-Ensures (Within suites.last end) _ (skip_field8 payload end suites.last) _
                  (skip_field8-Ensures payload end suites.last e.1)
                  λ after_compression m.
                    >?=-Ensures (RangeWithin after_compression end) _
                      (field16 payload end after_compression) _
                      (field16-Ensures payload end after_compression e.1 m.1)
                      λ extensions x.
                        tls_extensions-Ensures (length payload + 1) payload extensions.last
                          extensions.first (omega arith) (omega arith) (omega arith)

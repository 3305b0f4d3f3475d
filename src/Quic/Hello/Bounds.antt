-- ===== src/Quic/Hello/Bounds.antt =====
-- Bounds of the ClientHello walk of src/core/QuicParser.cpp.
use netprobe_cpp.Base.{
  ℕ, zero, suc, ◌+◌, ◌*◌, ◌≤◌, ◌<◌, Option, none, some, arith, ltb, Bytes, length, get_or, slice,
  length-slice, read, read_u16, read_bytes, Ensures, Ensures-mono, IfSome, >?=-Ensures, if-Ensures,
}
use netprobe_cpp.Quic.Hello.{
  skip_u8_field, u16_field, server_name, hello_extensions, sni_of_body, sni_from_client_hello,
}

skip_u8_field-Ensures :
    (body : Bytes) (pos : ℕ)
    → Ensures (IfSome (λ at. (pos < at) × (at ≤ length body))) (skip_u8_field body pos)
unfolding skip_u8_field read
skip_u8_field-Ensures body pos = ground arith

u16_field-Ensures :
    (body : Bytes) (pos : ℕ)
    → Ensures (IfSome (λ count. pos + 2 + count ≤ length body)) (u16_field body pos)
unfolding u16_field read_u16 read
u16_field-Ensures body pos = ground arith

-- A name that is found is no longer than the message.
abbrev pub ShortName : Bytes → Option Bytes → Type 0
ShortName body = IfSome (λ name. length name ≤ length body)

server_name-Ensures :
    (body : Bytes) (p count : ℕ)
    → p + count ≤ length body
    → Ensures (ShortName body) (server_name body p count)
unfolding server_name read_bytes read_u16 read
server_name-Ensures body p count h =
    ground
      (arith, length-slice body (p + 5) (get_or body (p + 3) 0 * 256 + get_or body (p + 3 + 1) 0))

hello_extensions-Ensures :
    (fuel : ℕ) (body : Bytes) (end p : ℕ)
    → end ≤ length body
    → p ≤ end
    → end < p + fuel
    → Ensures (ShortName body) (hello_extensions fuel body end p)
unfolding hello_extensions read_u16 read
hello_extensions-Ensures zero body end p h k f = absurd (omega arith)
hello_extensions-Ensures (suc fuel) body end p h k f =
    let count = get_or body (p + 2) 0 * 256 + get_or body (p + 2 + 1) 0 in
    ground (
      arith,
      server_name-Ensures body (p + 4) count,
      hello_extensions-Ensures fuel body end (p + 4 + count) h,
    )

sni_of_body-Ensures : (body : Bytes) → Ensures (ShortName body) (sni_of_body body)
unfolding sni_of_body
sni_of_body-Ensures body =
    if-Ensures (ShortName body) (ltb (length body) 34) _ _ (λ _. tt)
      λ _.
        >?=-Ensures (λ at. (34 < at) × (at ≤ length body)) _ (skip_u8_field body 34) _
          (skip_u8_field-Ensures body 34)
          λ after_session a.
            >?=-Ensures (λ count. after_session + 2 + count ≤ length body) _
              (u16_field body after_session) _ (u16_field-Ensures body after_session)
              λ suites b.
                >?=-Ensures (λ at. (after_session + 2 + suites < at) × (at ≤ length body)) _
                  (skip_u8_field body (after_session + 2 + suites)) _
                  (skip_u8_field-Ensures body (after_session + 2 + suites))
                  λ after_compression c.
                    >?=-Ensures (λ count. after_compression + 2 + count ≤ length body) _
                      (u16_field body after_compression) _
                      (u16_field-Ensures body after_compression)
                      λ extensions d.
                        hello_extensions-Ensures (length body + 1) body
                          (after_compression + 2 + extensions) (after_compression + 2) d
                          (omega arith) (omega arith)

-- On any message `sniFromClientHello` ends, reads inside of the message only, and a name that it
-- finds is no longer than the message.
pub sni_from_client_hello-Ensures :
    (message : Bytes)
    → Ensures (IfSome (λ name. length name ≤ length message)) (sni_from_client_hello message)
unfolding sni_from_client_hello read_bytes read
sni_from_client_hello-Ensures message =
    let count = get_or message 1 0 * 65536 + get_or message 2 0 * 256 + get_or message 3 0 in
    ground (
      arith,
      length-slice message 4 count,
      Ensures-mono (ShortName (slice message 4 count)) (ShortName message)
          (sni_of_body (slice message 4 count)) (sni_of_body-Ensures (slice message 4 count)),
      shorter count,
    )
  where
    shorter :
        (count : ℕ)
        → 4 + count ≤ length message
        → (name : Option Bytes) → ShortName (slice message 4 count) name
        → ShortName message name
    shorter count h none s = tt
    shorter count h (some n) s = omega (arith, length-slice message 4 count)

-- ===== src/Quic/Hello.antt =====
-- src/core/QuicParser.cpp, `sniFromClientHello`: the ClientHello of a CRYPTO stream, which has no
-- record header. Positions are counted from `body`, and the pointers of the loop over extensions
-- are positions too.
pub mod Bounds
use netprobe_cpp.Base.{
  ℕ, zero, suc, ◌+◌, ◌*◌, Bool, Option, none, some, not, ltb, leb, ◌==◌, if◌then◌else◌, Bytes,
  length, Outcome, done, stuck, ◌>>=◌, ◌>?=◌, read, read_u16, read_bytes,
}

-- A field behind a length of one byte: the position after it.
pub skip_u8_field : Bytes → ℕ → Outcome (Option ℕ)
skip_u8_field body pos = if ltb (length body) (pos + 1) then done none else (do
  count ← read body pos
  if ltb (length body) (pos + 1 + count) then done none else done (some (pos + 1 + count)))

-- The length of a field of two bytes, checked against the body.
pub u16_field : Bytes → ℕ → Outcome (Option ℕ)
u16_field body pos = if ltb (length body) (pos + 2) then done none else (do
  count ← read_u16 body pos
  if ltb (length body) (pos + 2 + count) then done none else done (some count))

-- A server_name extension of `count` bytes at `p`. `none` says to go on behind it.
pub server_name : Bytes → ℕ → ℕ → Outcome (Option Bytes)
server_name body p count = if ltb count 5 then done none else (do
  list_len ← read_u16 body p
  if ltb count (list_len + 2) then done none else if ltb list_len 3 then done none else (do
    name_type ← read body (p + 2)
    if not (name_type == 0x00) then done none else (do
      name_len ← read_u16 body (p + 3)
      if ltb list_len (3 + name_len)
          then done none
          else (do name ← read_bytes body (p + 5) name_len; done (some name)))))

-- The loop over extensions, on fuel.
pub hello_extensions : ℕ → Bytes → ℕ → ℕ → Outcome (Option Bytes)
hello_extensions zero body end p = stuck
hello_extensions (suc fuel) body end p =
    let next = λ (at : ℕ). hello_extensions fuel body end at in
    if not (leb (p + 4) end) then done none else (do
      type ← read_u16 body p
      count ← read_u16 body (p + 2)
      let behind = p + 4 + count
      if ltb end behind
          then done none
          else if type == 0x0000
          then (do
            name ← server_name body (p + 4) count
            elim name [ some s ↦ done (some s) | none ↦ next behind ])
          else next behind)

-- The message behind its header.
pub sni_of_body : Bytes → Outcome (Option Bytes)
sni_of_body body =
    if ltb (length body) 34
    then done none
    else (skip_u8_field body 34 >?= λ after_session. u16_field body after_session >?= λ suites.
        skip_u8_field body (after_session + 2 + suites) >?= λ after_compression.
        u16_field body after_compression >?= λ extensions.
        hello_extensions (length body + 1) body (after_compression + 2 + extensions)
          (after_compression + 2))

pub sni_from_client_hello : Bytes → Outcome (Option Bytes)
sni_from_client_hello message = if ltb (length message) 4 then done none else (do
  type ← read message 0
  if not (type == 0x01) then done none else (do
    b1 ← read message 1
    b2 ← read message 2
    b3 ← read message 3
    let body_len = b1 * 65536 + b2 * 256 + b3
    if ltb (length message) (4 + body_len)
        then done none
        else (do body ← read_bytes message 4 body_len; sni_of_body body)))

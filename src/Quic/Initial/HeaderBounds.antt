-- ===== src/Quic/Initial/HeaderBounds.antt =====
-- What the header of a packet of src/core/QuicParser.cpp reads.
use netprobe_cpp.Base.{
  ℕ, ◌+◌, ◌-◌, ◌≤◌, Option, none, some, arith, ltb, ◌||◌, Bytes, length, read, read_u16, read_u32,
  read_bytes, Ensures, IfSome, >>=-Ensures, >?=-Ensures, if-Ensures,
}
use netprobe_cpp.Quic.Frames.{read_varint}
use netprobe_cpp.Quic.Frames.Bounds.{After, read_varint-Ensures}
use netprobe_cpp.Quic.Keys.{VersionParams}
use netprobe_cpp.Quic.Initial.{
  looks_like_long_header, Header, read_connection_id, read_versioned, read_header_tail, read_header,
}

abbrev pub Any {ℓ} : {A : Type ℓ} → A → Type 0
Any a = Unit {0}

pub looks_like_long_header-Ensures : (bytes : Bytes) → Ensures Any (looks_like_long_header bytes)
unfolding looks_like_long_header read_u32 read_u16 read
looks_like_long_header-Ensures bytes = ground arith

-- The packet number and its protection lie inside of the datagram.
abbrev pub HeaderWithin : Bytes → Header → Type 0
HeaderWithin bytes h =
    (6 ≤ h.pn_offset) × (h.pn_offset + 20 ≤ length bytes) × (h.pn_offset + h.length ≤ length bytes)

read_connection_id-Ensures :
    (bytes : Bytes) (pos : ℕ) → Ensures (IfSome (After bytes pos)) (read_connection_id bytes pos)
unfolding read_connection_id read
read_connection_id-Ensures bytes pos = ground arith

read_header_tail-Ensures :
    (bytes : Bytes) (params : VersionParams) (dcid : Bytes) (pos : ℕ)
    → 6 ≤ pos
    → Ensures (IfSome (HeaderWithin bytes)) (read_header_tail bytes params dcid pos)
unfolding read_header_tail
read_header_tail-Ensures bytes params dcid pos h =
    >?=-Ensures (λ v. After bytes pos v.position) (HeaderWithin bytes) (read_varint bytes pos) _
      (read_varint-Ensures bytes pos)
      λ token a.
        if-Ensures (IfSome (HeaderWithin bytes))
          (ltb (length bytes) token.value || ltb (length bytes) (token.position + token.value)) _ _
          (λ _. tt)
          λ _.
            >?=-Ensures (λ v. After bytes (token.position + token.value) v.position)
              (HeaderWithin bytes) (read_varint bytes (token.position + token.value)) _
              (read_varint-Ensures bytes (token.position + token.value)) λ len b. ground arith

read_versioned-Ensures :
    (bytes : Bytes) (params : Option VersionParams)
    → Ensures (IfSome (HeaderWithin bytes)) (read_versioned bytes params)
unfolding read_versioned read_bytes
read_versioned-Ensures bytes none = tt
read_versioned-Ensures bytes (some params) =
    >?=-Ensures (After bytes 5) (HeaderWithin bytes) (read_connection_id bytes 5) _
      (read_connection_id-Ensures bytes 5)
      λ after_dcid a.
        >>=-Ensures Any (IfSome (HeaderWithin bytes)) (read_bytes bytes 6 (after_dcid - 6)) _
          (ground arith)
          λ dcid _.
            >?=-Ensures (After bytes after_dcid) (HeaderWithin bytes)
              (read_connection_id bytes after_dcid) _ (read_connection_id-Ensures bytes after_dcid)
              λ after_scid b. read_header_tail-Ensures bytes params dcid after_scid (omega arith)

pub read_header-Ensures :
    (bytes : Bytes) → Ensures (IfSome (HeaderWithin bytes)) (read_header bytes)
unfolding read_header read_u32 read_u16 read
read_header-Ensures bytes = grind (arith, read_versioned-Ensures)

-- ===== src/Quic/Frames/Bounds.antt =====
-- Bounds of the frame walk of src/core/QuicParser.cpp.
use native.Mathlib.Nat.{one-le-pow}
use netprobe_cpp.Base.{
  ℕ, zero, suc, ◌+◌, ◌-◌, ◌*◌, ◌/◌, ◌%◌, ◌^◌, ◌≤◌, ◌<◌, ◌≡◌, Option, none, some, arith, ltb, leb,
  ◌==◌, if◌then◌else◌, List, [], ◌++◌, Bytes, length, get_or, length-slice, All-append, All, read,
  read_lem, read_bytes, Ensures, Ensures-mono, IfSome, >?=-Ensures, if-Ensures,
}
use netprobe_cpp.Quic.Frames.{
  Varint, varint_bytes, read_varint, CryptoFragment, sane_crypto_bound, skip_varints, skip_ack,
  Frame, take_crypto, read_crypto, read_ack, read_frame, collect_frames, collect_crypto_frames,
}

-- A position behind `pos` and not beyond the end.
abbrev pub After : Bytes → ℕ → ℕ → Type 0
After bytes pos at = (pos < at) × (at ≤ length bytes)

abbrev pub FromTo : Bytes → ℕ → ℕ → Type 0
FromTo bytes pos at = (pos ≤ at) × (at ≤ length bytes)

varint_bytes-Ensures :
    (rest : ℕ) (bytes : Bytes) (pos out : ℕ)
    → pos + rest ≤ length bytes
    → Ensures (IfSome (λ v. v.position ≡ pos + rest)) (varint_bytes rest bytes pos out)
unfolding varint_bytes
varint_bytes-Ensures zero bytes pos out h = omega arith
varint_bytes-Ensures (suc rest) bytes pos out h = rw (read_lem bytes pos (omega arith)) (
    Ensures-mono (IfSome (λ v. v.position ≡ pos + 1 + rest)) _ _
      (varint_bytes-Ensures rest bytes (pos + 1) (out * 256 + get_or bytes pos 0) (omega arith))
      (elim [ none ↦ λ _. tt | some v ↦ λ e. omega arith ]))

-- An integer that is read lies inside of the payload, and takes a byte at least.
pub read_varint-Ensures :
    (bytes : Bytes) (pos : ℕ)
    → Ensures (IfSome (λ v. After bytes pos v.position)) (read_varint bytes pos)
unfolding read_varint
read_varint-Ensures bytes pos =
    if-Ensures After? (leb (length bytes) pos) _ _ (λ _. tt)
      λ inside. rw (read_lem bytes pos (ground arith)) (
        if-Ensures After? (ltb (length bytes) (pos + len)) _ _ (λ _. tt)
          λ fits.
            Ensures-mono (IfSome (λ v. v.position ≡ pos + 1 + (len - 1))) After?
              (varint_bytes (len - 1) bytes (pos + 1) (get_or bytes pos 0 % 64))
              (varint_bytes-Ensures (len - 1) bytes (pos + 1) (get_or bytes pos 0 % 64)
                (ground (arith, len_pos)))
              (elim [ none ↦ λ _. tt | some v ↦ λ e. ground (arith, len_pos) ]))
  where
    len : ℕ
    len = 2 ^ (get_or bytes pos 0 / 64)

    len_pos : 1 ≤ len
    len_pos = one-le-pow (get_or bytes pos 0 / 64) 2 (omega arith)

    After? : Option Varint → Type 0
    After? = IfSome (λ v. After bytes pos v.position)

skip_varints-Ensures :
    (count : ℕ) (bytes : Bytes) (pos : ℕ)
    → pos ≤ length bytes
    → Ensures (IfSome (FromTo bytes pos)) (skip_varints count bytes pos)
unfolding skip_varints
skip_varints-Ensures zero bytes pos h = omega arith
skip_varints-Ensures (suc count) bytes pos h =
    >?=-Ensures (λ v. After bytes pos v.position) (FromTo bytes pos) (read_varint bytes pos) _
      (read_varint-Ensures bytes pos)
      λ v a.
        Ensures-mono (IfSome (FromTo bytes v.position)) _ (skip_varints count bytes v.position)
          (skip_varints-Ensures count bytes v.position a.1)
          (elim [ none ↦ λ _. tt | some at ↦ λ b. omega arith ])

skip_ack-Ensures :
    (bytes : Bytes) (type pos : ℕ)
    → pos ≤ length bytes
    → Ensures (IfSome (FromTo bytes pos)) (skip_ack bytes type pos)
unfolding skip_ack
skip_ack-Ensures bytes type pos h =
    >?=-Ensures (FromTo bytes pos) (FromTo bytes pos) (skip_varints 2 bytes pos) _
      (skip_varints-Ensures 2 bytes pos h)
      λ after_delay a.
        >?=-Ensures (λ v. After bytes after_delay v.position) (FromTo bytes pos)
          (read_varint bytes after_delay) _ (read_varint-Ensures bytes after_delay)
          λ range_count b.
            >?=-Ensures (FromTo bytes range_count.position) (FromTo bytes pos)
              (skip_varints 1 bytes range_count.position) _
              (skip_varints-Ensures 1 bytes range_count.position b.1)
              λ after_first c.
                if-Ensures (IfSome (FromTo bytes pos)) (ltb (length bytes) range_count.value) _ _
                  (λ _. tt)
                  λ _.
                    >?=-Ensures (FromTo bytes after_first) (FromTo bytes pos)
                      (skip_varints (2 * range_count.value) bytes after_first) _
                      (skip_varints-Ensures (2 * range_count.value) bytes after_first c.1)
                      λ after_ranges d.
                        Ensures-mono (IfSome (FromTo bytes after_ranges)) _
                          (skip_varints (if type == 0x03 then 3 else 0) bytes after_ranges)
                          (skip_varints-Ensures (if type == 0x03 then 3 else 0) bytes after_ranges
                            d.1)
                          (elim [ none ↦ λ _. tt | some at ↦ λ e. omega arith ])

-- A fragment ends below twice the bound on CRYPTO offsets.
abbrev pub IsSane : CryptoFragment → Type 0
IsSane f = (f.offset ≤ sane_crypto_bound) × (length f.content ≤ sane_crypto_bound)

abbrev FrameFrom : Bytes → ℕ → Frame → Type 0
FrameFrom bytes pos f = FromTo bytes pos f.position × All IsSane f.found

take_crypto-Ensures :
    (bytes : Bytes) (offset count pos : ℕ)
    → pos ≤ length bytes
    → Ensures (IfSome (FrameFrom bytes pos)) (take_crypto bytes offset count pos)
unfolding take_crypto read_bytes
take_crypto-Ensures bytes offset count pos h = ground (arith, length-slice bytes pos count)

read_crypto-Ensures :
    (bytes : Bytes) (pos : ℕ) → Ensures (IfSome (FrameFrom bytes pos)) (read_crypto bytes pos)
unfolding read_crypto
read_crypto-Ensures bytes pos =
    >?=-Ensures (λ v. After bytes pos v.position) _ (read_varint bytes pos) _
      (read_varint-Ensures bytes pos)
      λ offset a.
        >?=-Ensures (λ v. After bytes offset.position v.position) _
          (read_varint bytes offset.position) _ (read_varint-Ensures bytes offset.position)
          λ count b.
            Ensures-mono (IfSome (FrameFrom bytes count.position)) (IfSome (FrameFrom bytes pos))
              (take_crypto bytes offset.value count.value count.position)
              (take_crypto-Ensures bytes offset.value count.value count.position b.1)
              (elim [ none ↦ λ _. tt | some c ↦ λ f. ((omega arith, f.0.1), f.1) ])

read_ack-Ensures :
    (bytes : Bytes) (type pos : ℕ)
    → pos ≤ length bytes
    → Ensures (IfSome (FrameFrom bytes pos)) (read_ack bytes type pos)
unfolding read_ack
read_ack-Ensures bytes type pos h =
    >?=-Ensures (FromTo bytes pos) (FrameFrom bytes pos) (skip_ack bytes type pos) _
      (skip_ack-Ensures bytes type pos h) (λ at a. (a, tt))

read_frame-Ensures :
    (bytes : Bytes) (pos : ℕ)
    → pos < length bytes
    → Ensures (IfSome (FrameFrom bytes (pos + 1))) (read_frame bytes pos)
unfolding read_frame read
read_frame-Ensures bytes pos h = ground (
  arith,
  read_ack-Ensures bytes (get_or bytes pos 0) (pos + 1),
  read_crypto-Ensures bytes (pos + 1),
)

collect_frames-Ensures :
    (fuel : ℕ) (bytes : Bytes) (pos : ℕ) (out : List CryptoFragment)
    → length bytes < pos + fuel
    → pos ≤ length bytes
    → All IsSane out
    → Ensures (IfSome (All IsSane)) (collect_frames fuel bytes pos out)
unfolding collect_frames
collect_frames-Ensures zero bytes pos out f h s = absurd (omega arith)
collect_frames-Ensures (suc fuel) bytes pos out f h s =
    if-Ensures (IfSome (All IsSane)) (leb (length bytes) pos) _ _ (λ _. s)
      λ inside.
        >?=-Ensures (FrameFrom bytes (pos + 1)) (All IsSane) (read_frame bytes pos) _
          (read_frame-Ensures bytes pos (ground arith))
          λ r a.
            collect_frames-Ensures fuel bytes r.position (out ++ r.found) (omega arith) a.0.1
              (All-append IsSane out r.found s a.1)

-- On any decrypted payload the walk over the frames ends and reads inside of the payload only, and
-- each fragment it returns has an offset and a length of at most 2 ^ 24.
pub collect_crypto_frames-Ensures :
    (bytes : Bytes) → Ensures (IfSome (All IsSane)) (collect_crypto_frames bytes)
unfolding collect_crypto_frames
collect_crypto_frames-Ensures bytes =
    collect_frames-Ensures (length bytes + 1) bytes 0 [] (omega arith) (omega arith) tt

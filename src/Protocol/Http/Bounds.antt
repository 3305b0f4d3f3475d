-- ===== src/Protocol/Http/Bounds.antt =====
-- Bounds of the HTTP scan of src/core/ProtocolParser.cpp.
use netprobe_cpp.Base.{
  ℕ, zero, suc, ◌+◌, ◌-◌, ◌≤◌, ◌<◌, ◌≡◌, refl, List, [], ◌∷◌, arith, min, leb, ◌==◌, Bytes, length,
  slice, read, read_bytes, Ensures, >>=-Ensures, Ensures-mono, if-Ensures, not,
}
use netprobe_cpp.Packet.{ParsedPacket}
use netprobe_cpp.Protocol.Http.{
  http_methods, is_method, is_http_method, find_line_end, line_end, is_host_line, skip_spaces,
  set_host, take_host, header_lines, with_http, is_http_response, parse_http,
}

-- A claim with no content beside the run's end.
abbrev Any {ℓ} : {A : Type ℓ} → A → Type 0
Any a = Unit {0}

-- The scan leaves the recorded payload and the transport fields alone.
abbrev pub SameTransport : ParsedPacket → ParsedPacket → Type 0
SameTransport p q =
    (q.payload_offset ≡ p.payload_offset)
    × (q.payload_length ≡ p.payload_length)
    × (q.protocol ≡ p.protocol)
    × (q.src_port ≡ p.src_port)
    × (q.dst_port ≡ p.dst_port)

is_method-Ensures :
    (payload : Bytes) (len : ℕ) (method : Bytes)
    → len ≤ length payload
    → Ensures Any (is_method payload len method)
unfolding is_method read_bytes read
is_method-Ensures payload len method h = ground arith

is_http_method-Ensures :
    (methods : List Bytes) (payload : Bytes) (len : ℕ)
    → len ≤ length payload
    → Ensures Any (is_http_method methods payload len)
unfolding is_http_method
is_http_method-Ensures [] payload len h = tt
is_http_method-Ensures (method ∷ methods) payload len h =
    >>=-Ensures Any Any (is_method payload len method) _ (is_method-Ensures payload len method h)
      λ found _.
        if-Ensures Any found _ _ (λ _. tt) λ _. is_http_method-Ensures methods payload len h

-- A line ends at the end of the scan, or with CR LF in front of it.
abbrev LineEnd : ℕ → ℕ → ℕ → Type 0
LineEnd scan_len from end = (end ≤ scan_len) × (from ≤ scan_len → from ≤ end)

find_line_end-Ensures :
    (rounds : ℕ) (payload : Bytes) (scan_len i : ℕ)
    → scan_len ≤ length payload
    → Ensures (LineEnd scan_len i) (find_line_end rounds payload scan_len i)
unfolding find_line_end read
find_line_end-Ensures zero payload scan_len i h = (omega arith, λ k. k)
find_line_end-Ensures (suc rounds) payload scan_len i h =
    ground (arith, find_line_end-Ensures rounds payload scan_len (i + 1) h)

is_host_line-Ensures :
    (payload : Bytes) (pos end : ℕ)
    → end ≤ length payload
    → Ensures Any (is_host_line payload pos end)
unfolding is_host_line read_bytes
is_host_line-Ensures payload pos end h = ground arith

skip_spaces-Ensures :
    (rounds : ℕ) (payload : Bytes) (end at : ℕ)
    → end ≤ length payload
    → Ensures (λ r. at ≤ r) (skip_spaces rounds payload end at)
unfolding skip_spaces read
skip_spaces-Ensures zero payload end at h = omega arith
skip_spaces-Ensures (suc rounds) payload end at h =
    ground (arith, skip_spaces-Ensures rounds payload end (at + 1) h)

set_host-SameTransport : (host : Bytes) (p : ParsedPacket) → SameTransport p (set_host host p)
unfolding set_host
set_host-SameTransport host p = ground arith

take_host-Ensures :
    (payload : Bytes) (pos end : ℕ) (p : ParsedPacket)
    → end ≤ length payload
    → Ensures (SameTransport p) (take_host payload pos end p)
unfolding take_host read_bytes
take_host-Ensures payload pos end p h =
    >>=-Ensures (λ r. pos + 5 ≤ r) (SameTransport p)
      (skip_spaces (end - (pos + 5)) payload end (pos + 5)) _
      (skip_spaces-Ensures (end - (pos + 5)) payload end (pos + 5) h)
      λ start k. ground (arith, set_host-SameTransport (slice payload start (end - start)) p)

header_lines-Ensures :
    (fuel : ℕ) (payload : Bytes) (scan_len pos : ℕ) (p : ParsedPacket)
    → scan_len ≤ length payload
    → scan_len < pos + fuel
    → 1 ≤ fuel
    → Ensures (SameTransport p) (header_lines fuel payload scan_len pos p)
unfolding header_lines line_end
header_lines-Ensures zero payload scan_len pos p h f one = absurd (omega arith)
header_lines-Ensures (suc fuel) payload scan_len pos p h f one =
    if-Ensures (SameTransport p) (leb scan_len pos) _ _ (λ _. same)
      λ inside.
        >>=-Ensures (LineEnd scan_len pos) (SameTransport p)
          (find_line_end scan_len payload scan_len pos) _
          (find_line_end-Ensures scan_len payload scan_len pos h)
          λ end e.
            if-Ensures (SameTransport p) (end == pos) _ _ (λ _. same)
              λ _.
                if-Ensures (SameTransport p) (end == scan_len) _ _ (λ _. same)
                  λ _.
                    >>=-Ensures Any (SameTransport p) (is_host_line payload pos end) _
                      (is_host_line-Ensures payload pos end (omega arith))
                      λ is_host _.
                        if-Ensures (SameTransport p) is_host _ _
                          (λ _. take_host-Ensures payload pos end p (omega arith))
                          λ _.
                            header_lines-Ensures fuel payload scan_len (end + 2) p h
                              (ground (arith, e)) (ground arith)
  where
    same : SameTransport p p
    same = (refl, refl, refl, refl, refl)

with_http-Ensures :
    (n : ℕ) (payload : Bytes) (p : ParsedPacket)
    → n ≤ length payload
    → Ensures (SameTransport p) (with_http n payload p)
unfolding with_http read_bytes
with_http-Ensures n payload p h = ground arith

is_http_response-Ensures :
    (payload : Bytes) (scan_len : ℕ)
    → scan_len ≤ length payload
    → Ensures Any (is_http_response payload scan_len)
unfolding is_http_response read_bytes
is_http_response-Ensures payload scan_len h = ground arith

pub SameTransport-trans :
    (p q r : ParsedPacket) → SameTransport p q → SameTransport q r → SameTransport p r
SameTransport-trans p q r h k = ground arith

-- On any payload the HTTP scan ends, reads inside of the payload only, and leaves the protocol, the
-- ports and the recorded payload of the packet alone.
pub parse_http-Ensures :
    (payload : Bytes) (p : ParsedPacket) → Ensures (SameTransport p) (parse_http payload p)
unfolding parse_http line_end
parse_http-Ensures payload p =
    >>=-Ensures Any (SameTransport p) (is_http_response payload scan_len) _
      (is_http_response-Ensures payload scan_len (omega arith))
      λ response _.
        if-Ensures (SameTransport p) response _ _
          (λ _.
            >>=-Ensures (LineEnd scan_len 0) (SameTransport p)
              (find_line_end scan_len payload scan_len 0) _
              (find_line_end-Ensures scan_len payload scan_len 0 (omega arith))
              λ end e. with_http-Ensures end payload p (omega arith))
          λ _.
            >>=-Ensures Any (SameTransport p) (is_http_method http_methods payload scan_len) _
              (is_http_method-Ensures http_methods payload scan_len (omega arith))
              λ request _.
                if-Ensures (SameTransport p) (not request) _ _ (λ _. (refl, refl, refl, refl, refl))
                  λ _.
                    >>=-Ensures (LineEnd scan_len 0) (SameTransport p)
                      (find_line_end scan_len payload scan_len 0) _
                      (find_line_end-Ensures scan_len payload scan_len 0 (omega arith))
                      λ end e.
                        >>=-Ensures (SameTransport p) (SameTransport p)
                          (with_http (min end 120) payload p) _
                          (with_http-Ensures (min end 120) payload p (omega arith))
                          λ q s.
                            Ensures-mono (SameTransport q) (SameTransport p)
                              (header_lines (scan_len + 1) payload scan_len (end + 2) q)
                              (header_lines-Ensures (scan_len + 1) payload scan_len (end + 2) q
                                (omega arith) (omega arith) (omega arith))
                              (λ r k. SameTransport-trans p q r s k)
  where
    scan_len : ℕ
    scan_len = min (length payload) 2048

-- ===== src/Dns/Records/Loops.antt =====
-- The loops over the strings of a TXT record and the parameters of a SVCB record, in
-- src/core/DNSParser.cpp.
use netprobe_cpp.Base.{
  ℕ, zero, suc, ◌+◌, ◌*◌, ◌-◌, ◌≤◌, ◌<◌, arith, none, some, min, ltb, if◌then◌else◌, size_sub, [],
  ◌∷◌, ◌++◌, Bytes, length, length-append, length-slice, is_empty, get_or, slice, read, read_u16,
  read_bytes, Ensures, IfSome, >>=-Ensures, if-Ensures,
}
use netprobe_cpp.Protocol.Network.Bounds.{Any}
use netprobe_cpp.Dns.Name.{read_name}
use netprobe_cpp.Dns.Name.Bounds.{EndsWithin, read_name-Ensures}
use netprobe_cpp.Dns.Records.{txt_chunks, svc_params, params_behind, svcb_advertises_ech}

pub txt_chunks-Ensures :
    (fuel : ℕ) (message : Bytes) (cursor record_end : ℕ) (text : Bytes)
    → record_end ≤ length message
    → record_end - cursor < fuel
    → length text ≤ 255
    → Ensures (λ t. length t ≤ 255) (txt_chunks fuel message cursor record_end text)
unfolding txt_chunks read read_bytes
txt_chunks-Ensures zero message cursor record_end text h f t = absurd (omega arith)
txt_chunks-Ensures (suc fuel) message cursor record_end text h f t =
    let spaced = if is_empty text then text else text ++ b' ' ∷ [] in
    let count = get_or message cursor 0 in
    let chunk = slice message (cursor + 1) (min count (size_sub 255 (length spaced))) in
    ground (
      arith,
      length-append text (b' ' ∷ []),
      length-append spaced chunk,
      length-slice message (cursor + 1) (min count (size_sub 255 (length spaced))),
      txt_chunks-Ensures fuel message (cursor + 1 + count) record_end (spaced ++ chunk) h,
    )

svc_params-Ensures :
    (fuel : ℕ) (message : Bytes) (position record_end : ℕ)
    → record_end ≤ length message
    → record_end - position < fuel
    → Ensures Any (svc_params fuel message position record_end)
unfolding svc_params read_u16 read
svc_params-Ensures zero message position record_end h f = absurd (omega arith)
svc_params-Ensures (suc fuel) message position record_end h f = ground (
  arith,
  svc_params-Ensures fuel message
      (position + 4 + (get_or message (position + 2) 0 * 256 + get_or message (position + 3) 0))
      record_end h,
)

pub svcb_advertises_ech-Ensures :
    (message : Bytes) (position record_end : ℕ)
    → record_end ≤ length message
    → Ensures Any (svcb_advertises_ech message position record_end)
unfolding svcb_advertises_ech params_behind
svcb_advertises_ech-Ensures message position record_end h =
    if-Ensures Any (ltb (size_sub record_end position) 2) _ _ (λ _. tt)
      λ _.
        >>=-Ensures (IfSome (EndsWithin message)) Any (read_name message (position + 2)) _
          (read_name-Ensures message (position + 2))
          (elim [
            | none ↦ λ _. tt
            | some n ↦ λ _.
                svc_params-Ensures (record_end + 1) message n.position record_end h (omega arith)
          ])

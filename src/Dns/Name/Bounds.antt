-- ===== src/Dns/Name/Bounds.antt =====
-- Bounds of `readName` of src/core/DNSParser.cpp.
use native.Mathlib.Nat.{suc-mul, add-mul}
use netprobe_cpp.Base.{
  ℕ, zero, suc, ◌+◌, ◌-◌, ◌*◌, ◌≤◌, ◌<◌, ◌≡◌, arith, Option, none, some, [], Bytes, length, bit_and,
  get_or, slice, read, read_bytes, Ensures, IfSome,
}
use netprobe_cpp.Dns.Name.{NameAt, add_label, end_of_name, name_labels, name_fuel, read_name}

-- The name ends inside of the message or at its end.
abbrev pub EndsWithin : Bytes → NameAt → Type 0
EndsWithin message n = n.position ≤ length message

name_labels-Ensures :
    (fuel left : ℕ) (message : Bytes) (cursor pointers : ℕ) (followed : Option ℕ) (name : Bytes)
    → pointers + left ≡ length message
    → left * (length message + 1) + (length message - cursor) < fuel
    → IfSome (λ at. at ≤ length message) followed
    → Ensures (IfSome (EndsWithin message)) (name_labels fuel message cursor pointers followed name)
unfolding name_labels end_of_name read read_bytes
name_labels-Ensures zero left message cursor pointers followed name p f e = absurd (omega arith)
name_labels-Ensures (suc fuel) zero message cursor pointers followed name p f e = ground (
  arith,
  name_labels-Ensures fuel zero message (cursor + 1 + get_or message cursor 0) pointers followed
      (add_label name (slice message (cursor + 1) (get_or message cursor 0))) p,
)
name_labels-Ensures (suc fuel) (suc left) message cursor pointers followed name p f e =
    let target = bit_and (get_or message cursor 0) 0x3f * 256 + get_or message (cursor + 1) 0 in
    ground (
      arith,
      suc-mul left (length message + 1),
      name_labels-Ensures fuel (suc left) message (cursor + 1 + get_or message cursor 0) pointers
          followed (add_label name (slice message (cursor + 1) (get_or message cursor 0))) p,
      name_labels-Ensures fuel left message target (pointers + 1)
          (some (end_of_name followed (cursor + 2))) name,
    )

-- On any message and from any position, `readName` ends, reads inside of the message only, and
-- leaves the position inside of the message or at its end.
pub read_name-Ensures :
    (message : Bytes) (position : ℕ)
    → Ensures (IfSome (EndsWithin message)) (read_name message position)
unfolding read_name name_fuel
read_name-Ensures message position =
    name_labels-Ensures (name_fuel (length message)) (length message) message position 0 none []
      (omega arith) (omega (arith, add-mul (length message) 1 (length message + 1))) tt

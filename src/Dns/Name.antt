-- ===== src/Dns/Name.antt =====
-- src/core/DNSParser.cpp, `readName`.
pub mod Bounds
pub mod RoundTrip
use netprobe_cpp.Base.{
  ℕ, zero, suc, ◌+◌, ◌*◌, Option, none, some, ◌||◌, not, ltb, leb, ◌==◌, if◌then◌else◌, [], ◌∷◌,
  ◌++◌, Bytes, length, is_empty, bit_and, Outcome, done, stuck, ◌>>=◌, read, read_bytes,
}

-- A name, and the position behind it that `readName` leaves in its last argument.
pub record NameAt : Type 0 where
  pub name : Bytes
  pub position : ℕ

-- The name so far and one more label of it.
pub add_label : Bytes → Bytes → Bytes
add_label name part = if is_empty name then part else name ++ (b'.' ∷ part)

-- Where the name ends for the caller: behind its first pointer, if it has one.
pub end_of_name : Option ℕ → ℕ → ℕ
end_of_name none behind = behind
end_of_name (some at) behind = at

-- The loop, on fuel. `followed` holds the position that the first pointer fixed.
pub name_labels : ℕ → Bytes → ℕ → ℕ → Option ℕ → Bytes → Outcome (Option NameAt)
name_labels zero message cursor pointers followed name = stuck
name_labels (suc fuel) message cursor pointers followed name =
    if leb (length message) cursor then done none else (do
      count ← read message cursor
      let pointer =
          if leb (length message) (cursor + 1) || ltb (length message) (pointers + 1)
          then done none
          else (do
            low ← read message (cursor + 1)
            let target = bit_and count 0x3f * 256 + low
            let jump =
                name_labels fuel message target (pointers + 1)
                  (some (end_of_name followed (cursor + 2))) name
            if leb (length message) target then done none else jump)
      let part =
          if not (bit_and count 0xc0 == 0)
            || ltb 63 count
            || ltb (length message) (cursor + 1 + count)
          then done none
          else (do
            label ← read_bytes message (cursor + 1) count
            name_labels fuel message (cursor + 1 + count) pointers followed (add_label name label))
      if count == 0
          then done (some (record { name = name; position = end_of_name followed (cursor + 1) }))
          else if bit_and count 0xc0 == 0xc0
          then pointer
          else part)

-- Of `size` bytes at most `size` pointers are followed, and between two of them the cursor advances.
pub name_fuel : ℕ → ℕ
name_fuel size = (size + 1) * (size + 1)

pub read_name : Bytes → ℕ → Outcome (Option NameAt)
read_name message position = name_labels (name_fuel (length message)) message position 0 none []

-- ===== src/Flow/Sequence.antt =====
-- src/core/FlowAggregator.cpp, the delivery problems of one direction of a TCP stream, judged by
-- 32-bit sequence numbers.
pub mod Serial
use netprobe_cpp.Base.{
  ℕ, ◌+◌, ◌-◌, ◌%◌, ◌^◌, not, ◌&&◌, Bool, false, true, ltb, leb, ◌==◌, if◌then◌else◌,
}

-- `DirectionSequence`.
pub record DirectionSequence : Type 0 where
  pub next_expected : ℕ
  pub valid : Bool

-- A default `DirectionSequence`.
abbrev pub no_sequence : DirectionSequence
no_sequence = record { next_expected = 0; valid = false }

-- What one direction keeps: its sequence, and its two counters in the flow.
pub record Delivery : Type 0 where
  pub sequence : DirectionSequence
  pub retransmissions : ℕ
  pub out_of_order : ℕ

-- `a - b` on `uint32_t`; as an `int32_t` it is negative from 2 ^ 31 on.
unfoldable pub sub32 : ℕ → ℕ → ℕ
sub32 a b = (a + 2 ^ 32 - b) % 2 ^ 32

unfoldable pub is_negative32 : ℕ → Bool
is_negative32 d = leb (2 ^ 31) d

unfoldable pub is_positive32 : ℕ → Bool
is_positive32 d = ltb 0 d && ltb d (2 ^ 31)

expect : ℕ → DirectionSequence
expect next = record { next_expected = next; valid = true }

-- A segment with payload of `count` bytes from `seq` on.
pub track : ℕ → ℕ → Delivery → Delivery
unfolding expect
track seq count d =
    let segment_end = (seq + count % 2 ^ 32) % 2 ^ 32 in
    let next = d.sequence.next_expected in
    let offset = sub32 seq next in
    if not d.sequence.valid
    then record d { sequence = expect segment_end }
    else if offset == 0
    then record d { sequence = expect segment_end }
    else if is_negative32 offset
    then record d {
      retransmissions = (d.retransmissions + 1) % 2 ^ 64;
      sequence = if is_positive32 (sub32 segment_end next) then expect segment_end else d.sequence;
    }
    else record d { out_of_order = (d.out_of_order + 1) % 2 ^ 64; sequence = expect segment_end }

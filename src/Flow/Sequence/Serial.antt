-- ===== src/Flow/Sequence/Serial.antt =====
-- Streams of segments against `track`, the 32-bit serial arithmetic of
-- src/core/FlowAggregator.cpp.
use netprobe_cpp.Base.{ℕ, ◌+◌, ◌%◌, ◌^◌, ◌<◌, ◌≤◌, ◌≡◌, refl, arith, true, List, [], ◌∷◌}
use netprobe_cpp.Flow.Sequence.{Delivery, expect, sub32, is_negative32, is_positive32, track}

-- Segments of the given sizes, each of which starts where the one before it ends.
abbrev pub in_order : ℕ → List ℕ → Delivery → Delivery
in_order seq [] d = d
in_order seq (count ∷ counts) d = in_order ((seq + count) % 2 ^ 32) counts (track seq count d)

-- The counters blame nothing more in `e` than in `d`.
abbrev pub SameBlame : Delivery → Delivery → Type 0
SameBlame d e = (e.retransmissions ≡ d.retransmissions) × (e.out_of_order ≡ d.out_of_order)

-- The stream goes on at `seq`, or nothing of it was seen.
abbrev pub GoesOnAt : ℕ → Delivery → Type 0
GoesOnAt seq d = d.sequence.valid ≡ true → d.sequence.next_expected ≡ seq

track-GoesOnAt :
    (seq count : ℕ) (d : Delivery)
    → seq < 2 ^ 32
    → GoesOnAt seq d
    → GoesOnAt ((seq + count) % 2 ^ 32) (track seq count d)
unfolding track sub32 expect
track-GoesOnAt seq count d b g = ground arith

track-SameBlame :
    (seq count : ℕ) (d : Delivery) → seq < 2 ^ 32 → GoesOnAt seq d → SameBlame d (track seq count d)
unfolding track sub32 expect
track-SameBlame seq count d b g = ground arith

-- In a direction of which nothing was seen, or which goes on at the first segment: however many
-- segments of whatever sizes follow each other without a gap, also where the 32-bit sequence number
-- wraps around, none counts as a retransmission or as out of order.
pub in_order-SameBlame :
    (counts : List ℕ) (seq : ℕ) (d : Delivery)
    → seq < 2 ^ 32
    → GoesOnAt seq d
    → SameBlame d (in_order seq counts d)
in_order-SameBlame [] seq d b g = (refl, refl)
in_order-SameBlame (count ∷ counts) seq d b g =
    let here = track-SameBlame seq count d b g in
    let after =
      in_order-SameBlame counts ((seq + count) % 2 ^ 32) (track seq count d) (omega arith)
        (track-GoesOnAt seq count d b g) in
    (cc, cc)

-- In a direction of which nothing was seen, or which goes on at the segment: a segment of at least
-- one and less than 2 ^ 31 bytes that is sent again as it was counts as one retransmission, not as
-- out of order, and leaves what is expected next as it is.
pub track-again :
    (seq count : ℕ) (d : Delivery)
    → seq < 2 ^ 32
    → 1 ≤ count
    → count < 2 ^ 31
    → GoesOnAt seq d
    → track seq count (track seq count d)
      ≡ record (track seq count d) { retransmissions = (d.retransmissions + 1) % 2 ^ 64 }
unfolding track sub32 expect is_negative32 is_positive32
track-again seq count d b one most g = ground arith

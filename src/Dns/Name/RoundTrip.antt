-- ===== src/Dns/Name/RoundTrip.antt =====
-- Names without compression, against `readName` of src/core/DNSParser.cpp.
use mathlib.Core.List.{append_assoc, append-nil}
use native.Mathlib.Nat.{mul-add}
use netprobe_cpp.Base.{
  ℕ, zero, suc, ◌+◌, ◌≤◌, ◌<◌, ◌≡◌, refl, sym, ◌∙◌, arith, true, none, some, ◌&&◌, not, ◌==◌, List,
  [], ◌∷◌, ◌++◌, Bytes, is_empty, length, length-append, bit_and, All, done, holds_below,
  holds_below_at, read_behind, read_bytes_behind,
}
use netprobe_cpp.Dns.Name.{add_label, end_of_name, name_labels, name_fuel, read_name}

-- A name on the wire: each label behind its length, and a zero at the end.
pub encode_name : List Bytes → Bytes
encode_name [] = 0 ∷ []
encode_name (label ∷ labels) = length label ∷ (label ++ encode_name labels)

-- The labels, each behind a dot.
pub with_dots : List Bytes → Bytes
with_dots [] = []
with_dots (label ∷ labels) = b'.' ∷ (label ++ with_dots labels)

-- The labels with a dot between each two.
pub join_labels : List Bytes → Bytes
join_labels [] = []
join_labels (label ∷ labels) = label ++ with_dots labels

add_labels : Bytes → List Bytes → Bytes
add_labels name [] = name
add_labels name (label ∷ labels) = add_labels (add_label name label) labels

abbrev pub IsLabel : Bytes → Type 0
IsLabel label = (1 ≤ length label) × (length label ≤ 63)

plain_lengths : holds_below 64 (λ n. (bit_and n 0xc0 == 0) && not (bit_and n 0xc0 == 0xc0)) ≡ true
unfolding holds_below
plain_lengths = refl

plain_length : (n : ℕ) → n ≤ 63 → ((bit_and n 0xc0 == 0) && not (bit_and n 0xc0 == 0xc0)) ≡ true
plain_length n h = holds_below_at 64 _ plain_lengths n (omega arith)

-- One round of the loop at a label.
name_labels-label :
    (fuel : ℕ) (before label rest name : Bytes)
    → IsLabel label
    → name_labels
        (suc fuel)
        (before ++ (length label ∷ (label ++ rest)))
        (length before)
        0
        none
        name
      ≡ name_labels fuel
          (before ++ (length label ∷ (label ++ rest)))
          (length before + 1 + length label)
          0
          none
          (add_label name label)
unfolding name_labels
name_labels-label fuel before label rest name l = ground (
  arith,
  read_behind before (label ++ rest) (length label),
  read_bytes_behind before label rest (length label),
  length-append before (length label ∷ (label ++ rest)),
  length-append label rest,
  plain_length (length label) l.1,
)

name_labels-end :
    (fuel : ℕ) (before rest name : Bytes)
    → name_labels (suc fuel) (before ++ (0 ∷ rest)) (length before) 0 none name
      ≡ done (some (record { name = name; position = length before + 1 }))
unfolding name_labels end_of_name
name_labels-end fuel before rest name =
    ground (arith, read_behind before rest 0, length-append before (0 ∷ rest))

regroup :
    (before label rest : Bytes)
    → (before ++ (length label ∷ label)) ++ rest ≡ before ++ (length label ∷ (label ++ rest))
regroup before label rest = append_assoc before (length label ∷ label) rest

name_labels-encode_name :
    (labels : List Bytes) (fuel : ℕ) (before after name : Bytes)
    → All IsLabel labels
    → length labels < fuel
    → name_labels fuel (before ++ (encode_name labels ++ after)) (length before) 0 none name
      ≡ done (
          some (record {
            name = add_labels name labels;
            position = length before + length (encode_name labels);
          }))
unfolding encode_name add_labels
name_labels-encode_name labels zero before after name a f = absurd (omega arith)
name_labels-encode_name [] (suc fuel) before after name a f = name_labels-end fuel before after name
name_labels-encode_name (label ∷ labels) (suc fuel) before after name a f =
    let rest = encode_name labels ++ after in
    let next = before ++ (length label ∷ label) in
    rw (append_assoc label (encode_name labels) after) (
      ground (
        arith,
        name_labels-label fuel before label rest name a.0,
        name_labels-encode_name labels fuel next after (add_label name label) a.1,
        regroup before label rest,
        length-append before (length label ∷ label),
        length-append label (encode_name labels),
      ))

more_labels : (labels : List Bytes) → length labels < length (encode_name labels)
unfolding encode_name
more_labels [] = omega arith
more_labels (label ∷ labels) =
    omega (arith, more_labels labels, length-append label (encode_name labels))

add_labels-with_dots :
    (labels : List Bytes) (name : Bytes)
    → 1 ≤ length name
    → add_labels name labels ≡ name ++ with_dots labels
unfolding add_labels with_dots add_label is_empty
add_labels-with_dots [] name n = sym (append-nil name)
add_labels-with_dots (label ∷ labels) [] n = absurd (omega arith)
add_labels-with_dots (label ∷ labels) (b ∷ name) n =
    add_labels-with_dots labels (b ∷ (name ++ (b'.' ∷ label))) (omega arith)
    ∙ append_assoc (b ∷ name) (b'.' ∷ label) (with_dots labels)

add_labels-join_labels :
    (labels : List Bytes) → All IsLabel labels → add_labels [] labels ≡ join_labels labels
unfolding add_labels join_labels add_label is_empty
add_labels-join_labels [] a = refl
add_labels-join_labels (label ∷ labels) a = add_labels-with_dots labels label a.0.0

-- Labels of 1 to 63 bytes that stand anywhere in a message, each behind its length and with a zero
-- at the end, are read as the name that joins them by dots, and the position is left behind the zero.
pub read_name-encode_name :
    (before : Bytes) (labels : List Bytes) (after : Bytes)
    → All IsLabel labels
    → read_name (before ++ (encode_name labels ++ after)) (length before)
      ≡ done (
          some (record {
            name = join_labels labels;
            position = length before + length (encode_name labels);
          }))
unfolding read_name name_fuel
read_name-encode_name before labels after a = rw (sym (add_labels-join_labels labels a)) (
    let message = before ++ (encode_name labels ++ after) in
    name_labels-encode_name labels (name_fuel (length message)) before after [] a (
      omega (
        arith,
        more_labels labels,
        length-append before (encode_name labels ++ after),
        length-append (encode_name labels) after,
        mul-add (length message + 1) (length message) 1,
      )))
